-- ===== src/Options.antt =====
-- cmd/rootlesskit/main.go: the options that the command line gives to the parent and the child. A
-- flag is a field; warnings of the log are left out.
pub mod Parent
pub mod Child
pub mod Drivers
pub mod Publish
pub mod Examples
use rootlesskit.Base.{if◌then◌else◌, ℤ, Bool, Option, none, some, List, [], ◌∷◌}
use rootlesskit.Text.{Bytes, codes, str_eq}
use rootlesskit.Port.{Spec}
use rootlesskit.Slirp

-- The flags, by their names. A flag of numbers is ℤ.
pub record Flags : Type 0 where
  pub pidns : Bool
  pub cgroupns : Bool
  pub utsns : Bool
  pub ipcns : Bool
  pub detach_netns : Bool
  pub propagation : Bytes
  pub evacuate_cgroup2 : Bytes
  pub subid_source : Bytes
  pub state_dir : Bytes
  pub net : Bytes
  pub mtu : ℤ
  pub cidr : Bytes
  pub ifname : Bytes
  pub ipv6 : Bool
  pub disable_host_loopback : Bool
  pub port_driver : Bytes
  pub pasta_binary : Bytes
  pub slirp4netns_binary : Bytes
  pub slirp4netns_sandbox : Bytes
  pub slirp4netns_seccomp : Bytes
  pub vpnkit_binary : Bytes
  pub lxc_user_nic_binary : Bytes
  pub lxc_user_nic_bridge : Bytes
  pub source_ip_transparent : Bool
  pub publish : List Bytes
  pub reaper : Bytes
  pub copy_up : List Bytes
  pub copy_up_mode : Bytes
  pub args : List Bytes

-- The cases of the switches on "net" and on "port-driver".
pub data NetworkMode : Type 0 where
  host none_mode pasta slirp4netns vpnkit lxc_user_nic gvisor_tap_vsock : NetworkMode

pub data PortMode : Type 0 where
  no_port implicit slirp4netns_port builtin gvisor_tap_vsock_port : PortMode

-- `net.IPNet`.
pub record IpNet : Type 0 where
  pub ip : Bytes
  pub mask : Bytes

-- A parent's network driver, with the arguments of its constructor.
pub data NetworkDriver : Type 0 where
  none_driver : NetworkDriver
  -- Binary, MTU, network, interface, no host loopback, IPv6, implicit forwarding.
  pasta_driver : Bytes → ℤ → Option IpNet → Bytes → Bool → Bool → Bool → NetworkDriver
  -- Binary, MTU, network, interface, no host loopback, API socket, sandbox, seccomp, IPv6.
  slirp4netns_driver :
      Bytes → ℤ → Option IpNet → Bytes → Bool → Bytes → Bool → Bool → Bool → NetworkDriver
  vpnkit_driver : Bytes → ℤ → Bytes → Bool → NetworkDriver
  -- Binary, MTU, bridge, interface.
  lxc_user_nic_driver : Bytes → ℤ → Bytes → Bytes → NetworkDriver
  gvisor_driver : ℤ → Option IpNet → Bytes → Bool → Bool → NetworkDriver

pub data PortDriver : Type 0 where
  slirp4netns_ports : Slirp.Driver → PortDriver
  -- State directory, transparent source addresses.
  builtin_ports : Bytes → Bool → PortDriver
  gvisor_ports : Bytes → PortDriver

-- `slirp4netns.Features`.
pub record Features : Type 0 where
  pub supports_disable_host_loopback : Bool
  pub supports_api_socket : Bool
  pub supports_enable_sandbox : Bool
  pub supports_enable_seccomp : Bool
  pub kernel_supports_enable_seccomp : Bool

find_mode : {A : Type 0} → Bytes → List (Bytes × A) → Option A
find_mode s [] = none
find_mode s ((name, m) ∷ rest) = if str_eq s name then some m else find_mode s rest

abbrev pub network_names : List (Bytes × NetworkMode)
network_names =
    (codes "host", host)
    ∷ (codes "none", none_mode)
    ∷ (codes "pasta", pasta)
    ∷ (codes "slirp4netns", slirp4netns)
    ∷ (codes "vpnkit", vpnkit)
    ∷ (codes "lxc-user-nic", lxc_user_nic)
    ∷ (codes "gvisor-tap-vsock", gvisor_tap_vsock)
    ∷ []

abbrev pub port_names : List (Bytes × PortMode)
port_names =
    (codes "none", no_port)
    ∷ (codes "implicit", implicit)
    ∷ (codes "slirp4netns", slirp4netns_port)
    ∷ (codes "builtin", builtin)
    ∷ (codes "gvisor-tap-vsock", gvisor_tap_vsock_port)
    ∷ []

unfoldable pub network_mode : Bytes → Option NetworkMode
unfolding find_mode str_eq
network_mode s = find_mode s network_names

unfoldable pub port_mode : Bytes → Option PortMode
unfolding find_mode str_eq
port_mode s = find_mode s port_names
