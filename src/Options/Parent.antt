-- ===== src/Options/Parent.antt =====
-- `createParentOpt` and `parseCIDR` of cmd/rootlesskit/main.go.
use rootlesskit.Base.{
  if◌then◌else◌, pos, ltb_ℤ, Bool, true, false, not, ◌&&◌, ◌||◌, Option, none, some, List, [], ◌∷◌,
  Result, ok, err, ◌>>=◌, ◌>>◌, reject_if, or_fail, wrap_err,
}
use rootlesskit.Text.{Bytes, codes, str_eq, is_empty}
use rootlesskit.Text.Search.{contains}
use rootlesskit.Net.{Net}
use rootlesskit.Port.{Spec}
use rootlesskit.Port.Parse
use rootlesskit.Port.Parse.{Token, parse_port_spec}
use rootlesskit.Port.Validate
use rootlesskit.Port.Validate.{validate_port_spec}
use rootlesskit.Slirp
use rootlesskit.Options.{
  Flags, NetworkMode, PortMode, IpNet, NetworkDriver, PortDriver, Features, network_mode, port_mode,
  host, none_mode, pasta, slirp4netns, vpnkit, lxc_user_nic, gvisor_tap_vsock, no_port, implicit,
  slirp4netns_port, builtin, gvisor_tap_vsock_port, none_driver, pasta_driver, slirp4netns_driver,
  vpnkit_driver, lxc_user_nic_driver, gvisor_driver, slirp4netns_ports, builtin_ports, gvisor_ports,
}

pub data Error : Type 0 where
  evacuate_requires_cgroupns evacuate_requires_pidns no_state_dir bad_mtu bad_cidr : Error
  bad_ifname cidr_unsupported ifname_unsupported none_requires_port_driver : Error
  pasta_requires_port_driver no_binary no_features lacks_disable_host_loopback : Error
  lacks_api_socket lacks_sandbox sandbox_conflicts_detach bad_sandbox_mode : Error
  lacks_seccomp kernel_lacks_seccomp bad_seccomp_mode ipv6_unsupported : Error
  driver_failed unknown_network publish_unsupported requires_pasta requires_slirp4netns : Error
  requires_network port_driver_failed unknown_port_driver : Error
  bad_publish : Parse.Error → Error
  invalid_publish : Validate.Error → Error

-- What the function calls: the file system, net.ParseCIDR with the two results, IP.Equal, the
-- search of binaries, the detection of features, whether the constructor of a network driver
-- succeeds, and whether the builtin port driver can make its files in a directory.
pub record System : Type 0 where
  pub mkdir_temp : Option Bytes
  pub abs : Bytes → Option Bytes
  pub init_state_dir : Bytes → Bool
  pub join : Bytes → Bytes → Bytes
  pub parse_net : Bytes → Option (Bytes × IpNet)
  pub ip_equal : Bytes → Bytes → Bool
  pub look_path : Bytes → Bool
  pub detect_features : Bytes → Option Features
  pub starts : NetworkDriver → Bool
  pub builtin_starts : Bytes → Bool

-- `parent.Opt`.
pub record Opt : Type 0 where
  pub create_pidns : Bool
  pub create_cgroupns : Bool
  pub create_utsns : Bool
  pub create_ipcns : Bool
  pub detach_netns : Bool
  pub propagation : Bytes
  pub evacuate_cgroup2 : Bytes
  pub subid_source : Bytes
  pub state_dir : Bytes
  pub network_driver : Option NetworkDriver
  pub port_driver : Option PortDriver
  pub publish_ports : List Spec

unfoldable pub check_evacuate : Flags → Result Error (Unit {0})
check_evacuate f = if is_empty f.evacuate_cgroup2 then ok tt else do
  reject_if (not f.cgroupns) evacuate_requires_cgroupns
  reject_if (not f.pidns) evacuate_requires_pidns

-- `parseCIDR`.
unfoldable pub parse_cidr : System → Bytes → Result Error (Option IpNet)
parse_cidr sys [] = ok none
parse_cidr sys (c ∷ s) = do
  (ip, ipnet) ← or_fail (sys.parse_net (c ∷ s)) bad_cidr
  reject_if (not (sys.ip_equal ip ipnet.ip)) bad_cidr
  ok (some ipnet)

unfoldable pub choose_dir : System → Bytes → Result Error Bytes
choose_dir sys [] = or_fail sys.mkdir_temp no_state_dir
choose_dir sys (c ∷ s) = do
  dir ← or_fail (sys.abs (c ∷ s)) no_state_dir
  reject_if (not (sys.init_state_dir dir)) no_state_dir
  ok dir

abbrev started : System → NetworkDriver → Result Error (Option NetworkDriver)
started sys d = if sys.starts d then ok (some d) else err driver_failed

abbrev is_some {ℓ} : {A : Type ℓ} → Option A → Bool
is_some none = false
is_some (some a) = true

abbrev is_one : PortMode → Option PortMode → Bool
is_one no_port (some no_port) = true
is_one builtin (some builtin) = true
is_one implicit (some implicit) = true
is_one m p = false

-- The switch on "slirp4netns-sandbox".
unfoldable pub sandbox : Flags → Features → Result Error Bool
sandbox f feat =
    if str_eq f.slirp4netns_sandbox (codes "auto")
    then ok (feat.supports_enable_sandbox && not f.detach_netns)
    else if str_eq f.slirp4netns_sandbox (codes "true")
    then (do
      reject_if (not feat.supports_enable_sandbox) lacks_sandbox
      reject_if f.detach_netns sandbox_conflicts_detach
      ok true)
    else if str_eq f.slirp4netns_sandbox (codes "false") || is_empty f.slirp4netns_sandbox
    then ok false
    else err bad_sandbox_mode

-- The switch on "slirp4netns-seccomp".
unfoldable pub seccomp : Flags → Features → Result Error Bool
seccomp f feat =
    if str_eq f.slirp4netns_seccomp (codes "auto")
    then ok (feat.supports_enable_seccomp && feat.kernel_supports_enable_seccomp)
    else if str_eq f.slirp4netns_seccomp (codes "true")
    then (do
      reject_if (not feat.supports_enable_seccomp) lacks_seccomp
      reject_if (not feat.kernel_supports_enable_seccomp) kernel_lacks_seccomp
      ok true)
    else if str_eq f.slirp4netns_seccomp (codes "false") || is_empty f.slirp4netns_seccomp
    then ok false
    else err bad_seccomp_mode

-- `slirp4netnsAPISocketPath`.
unfoldable pub api_socket_path : System → Flags → Bytes → Bytes
api_socket_path sys f dir =
    if str_eq f.port_driver (codes "slirp4netns") then sys.join dir (codes ".s4nn.sock") else []

unfoldable pub slirp4netns_network :
    System → Flags → Bytes → Option IpNet → Result Error (Option NetworkDriver)
unfolding sandbox seccomp api_socket_path
slirp4netns_network sys f dir ipnet = do
  let binary = f.slirp4netns_binary
  let socket = api_socket_path sys f dir
  reject_if (not (sys.look_path binary)) no_binary
  feat ← or_fail (sys.detect_features binary) no_features
  reject_if (f.disable_host_loopback && not feat.supports_disable_host_loopback)
      lacks_disable_host_loopback
  reject_if (not (is_empty socket) && not feat.supports_api_socket) lacks_api_socket
  enable_sandbox ← sandbox f feat
  enable_seccomp ← seccomp f feat
  started sys (
      slirp4netns_driver binary f.mtu ipnet f.ifname f.disable_host_loopback socket enable_sandbox
        enable_seccomp f.ipv6)

-- The network of gvisor-tap-vsock: the one given, or 10.0.2.0/24.
unfoldable pub gvisor_net : System → Flags → Result Error (Option IpNet)
gvisor_net sys f =
    if is_empty f.cidr
    then (do (_, ipnet) ← or_fail (sys.parse_net (codes "10.0.2.0/24")) bad_cidr; ok (some ipnet))
    else parse_cidr sys f.cidr

-- The switch on "net".
unfoldable pub network_for :
    System → Flags → Bytes → Option IpNet → NetworkMode → Result Error (Option NetworkDriver)
unfolding slirp4netns_network gvisor_net
network_for sys f dir ipnet host = do
  reject_if (is_some ipnet) cidr_unsupported
  reject_if (not (is_empty f.ifname)) ifname_unsupported
  ok none
network_for sys f dir ipnet none_mode = do
  reject_if (is_some ipnet) cidr_unsupported
  reject_if (not (is_empty f.ifname)) ifname_unsupported
  let p = port_mode f.port_driver
  reject_if (not (is_one no_port p || is_one builtin p)) none_requires_port_driver
  started sys none_driver
network_for sys f dir ipnet pasta = do
  reject_if (not (sys.look_path f.pasta_binary)) no_binary
  let p = port_mode f.port_driver
  reject_if (not (is_one no_port p || is_one implicit p)) pasta_requires_port_driver
  started sys (
      pasta_driver f.pasta_binary f.mtu ipnet f.ifname f.disable_host_loopback f.ipv6
        (is_one implicit p))
network_for sys f dir ipnet slirp4netns = slirp4netns_network sys f dir ipnet
network_for sys f dir ipnet vpnkit = do
  reject_if (is_some ipnet) cidr_unsupported
  reject_if (not (sys.look_path f.vpnkit_binary)) no_binary
  ok (some (vpnkit_driver f.vpnkit_binary f.mtu f.ifname f.disable_host_loopback))
network_for sys f dir ipnet lxc_user_nic = do
  reject_if (is_some ipnet) cidr_unsupported
  reject_if (not (sys.look_path f.lxc_user_nic_binary)) no_binary
  started sys (lxc_user_nic_driver f.lxc_user_nic_binary f.mtu f.lxc_user_nic_bridge f.ifname)
network_for sys f dir ipnet gvisor_tap_vsock = do
  virtual ← gvisor_net sys f
  reject_if f.ipv6 ipv6_unsupported
  started sys (gvisor_driver f.mtu virtual f.ifname f.disable_host_loopback f.ipv6)

-- The switch on "port-driver".
unfoldable pub port_for :
    System → Flags → Bytes → Option NetworkDriver → PortMode → Result Error (Option PortDriver)
unfolding api_socket_path
port_for sys f dir nd no_port = do reject_if (not (is_none f.publish)) publish_unsupported; ok none
  where
    is_none : List Bytes → Bool
    is_none [] = true
    is_none (p ∷ ps) = false
port_for sys f dir nd implicit = do
  reject_if (not (str_eq f.net (codes "pasta"))) requires_pasta
  ok none
port_for sys f dir nd slirp4netns_port = do
  reject_if (not (str_eq f.net (codes "slirp4netns"))) requires_slirp4netns
  d ← wrap_err (λ _. port_driver_failed) (Slirp.new_parent_driver (api_socket_path sys f dir))
  ok (some (slirp4netns_ports d))
port_for sys f dir nd builtin = do
  reject_if (not (is_some nd)) requires_network
  reject_if (not (sys.builtin_starts dir)) port_driver_failed
  ok (some (builtin_ports dir f.source_ip_transparent))
port_for sys f dir nd gvisor_tap_vsock_port = do
  reject_if (not (is_some nd)) requires_network
  ok (some (gvisor_ports dir))

module _ (net : Net) (scan : Bytes → List Token) where
  -- The loop over "publish".
  unfoldable pub publish_ports : List Bytes → Result Error (List Spec)
  publish_ports [] = ok []
  publish_ports (s ∷ ss) = do
    spec ← wrap_err bad_publish (parse_port_spec net scan s)
    wrap_err invalid_publish (validate_port_spec net spec [])
    specs ← publish_ports ss
    ok (spec ∷ specs)

  -- The drivers and ports, once the directory and the network are known.
  unfoldable pub choose_drivers : System → Flags → Bytes → Option IpNet → Result Error Opt
  choose_drivers sys f dir ipnet = do
    mode ← or_fail (network_mode f.net) unknown_network
    nd ← network_for sys f dir ipnet mode
    port ← or_fail (port_mode f.port_driver) unknown_port_driver
    pd ← port_for sys f dir nd port
    specs ← publish_ports f.publish
    ok (record {
      create_pidns = f.pidns;
      create_cgroupns = f.cgroupns;
      create_utsns = f.utsns;
      create_ipcns = f.ipcns;
      detach_netns = f.detach_netns;
      propagation = f.propagation;
      evacuate_cgroup2 = f.evacuate_cgroup2;
      subid_source = f.subid_source;
      state_dir = dir;
      network_driver = nd;
      port_driver = pd;
      publish_ports = specs;
    })

  -- `createParentOpt`.
  unfoldable pub create_parent_opt : System → Flags → Result Error Opt
  unfolding check_evacuate choose_dir
  create_parent_opt sys f = do
    check_evacuate f
    dir ← choose_dir sys f.state_dir
    reject_if (ltb_ℤ f.mtu (pos 0) || ltb_ℤ (pos 65521) f.mtu) bad_mtu
    ipnet ← parse_cidr sys f.cidr
    reject_if (contains f.ifname b'/') bad_ifname
    choose_drivers sys f dir ipnet
