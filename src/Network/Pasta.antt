-- ===== src/Network/Pasta.antt =====
-- The parent's driver of pkg/network/pasta/pasta.go.
use rootlesskit.Base.{
  if◌then◌else◌, ℤ, pos, ltb_ℤ, Bool, true, false, not, Option, none, some, List, [], ◌∷◌, ◌++◌,
}
use rootlesskit.Text.{Bytes, codes, is_empty}
use rootlesskit.Text.Decimal.{itoa}
use rootlesskit.Messages.{InitNetwork}
use rootlesskit.Calls.{Act, ◌>>=◌, ◌>>◌, call, pure, fail_if}
use rootlesskit.Options.{IpNet}
use rootlesskit.Network.{
  System, Call, Error, exec, empty_binary, negative_mtu, not_usable, exec_failed, offset,
  default_mtu, default_ifname,
}

-- The arguments of the constructor.
pub record Config : Type 0 where
  pub binary : Bytes
  pub mtu : ℤ
  pub ipnet : Option IpNet
  pub ifname : Bytes
  pub disable_host_loopback : Bool
  pub enable_ipv6 : Bool
  pub implicit_port_forwarding : Bool

pub record Driver : Type 0 where
  pub binary : Bytes
  pub mtu : ℤ
  pub ipnet : IpNet
  pub ifname : Bytes
  pub disable_host_loopback : Bool
  pub enable_ipv6 : Bool
  pub implicit_port_forwarding : Bool
  pub has_host_lo_to_ns_lo : Bool

-- What the program finds of the binary: whether `--version` runs, and with `--host-lo-to-ns-lo`
-- before it; and what `net.ParseCIDR` makes of the default network.
pub record Machine : Type 0 where
  pub version : Bytes → Bool
  pub host_lo_to_ns_lo : Bytes → Bool
  pub default_net : IpNet

choose_net : Machine → Option IpNet → IpNet
choose_net m none = m.default_net
choose_net m (some n) = n

-- `NewParentDriver`, with `DetectFeatures`.
unfoldable pub new_parent_driver : {C : Type 0} → Machine → Config → Act C Error Driver
unfolding choose_net
new_parent_driver m c = do
  fail_if (is_empty c.binary) empty_binary
  fail_if (ltb_ℤ c.mtu (pos 0)) negative_mtu
  fail_if (not (m.version c.binary)) not_usable
  pure (record {
    binary = c.binary;
    mtu = default_mtu c.mtu;
    ipnet = choose_net m c.ipnet;
    ifname = default_ifname c.ifname;
    disable_host_loopback = c.disable_host_loopback;
    enable_ipv6 = c.enable_ipv6;
    implicit_port_forwarding = c.implicit_port_forwarding;
    has_host_lo_to_ns_lo = m.host_lo_to_ns_lo c.binary;
  })

abbrev given : Bool → Bytes → List Bytes
given b o = if b then o ∷ [] else []

port_options : Bool → List Bytes
port_options true = codes "--tcp-ports=auto" ∷ codes "--udp-ports=auto" ∷ []
port_options false = codes "--tcp-ports=none" ∷ codes "--udp-ports=none" ∷ []

-- The command line, with the addresses as texts.
unfoldable pub command : System → Driver → ℤ → Bytes → Bytes → Bytes → Bytes → List Bytes
unfolding port_options
command sys d pid netns address gateway dns =
    d.binary
      ∷ codes "--stderr"
      ∷ (codes "--ns-ifname=" ++ d.ifname)
      ∷ (codes "--mtu=" ++ itoa d.mtu)
      ∷ codes "--config-net"
      ∷ (codes "--address=" ++ address)
      ∷ (codes "--netmask=" ++ itoa (sys.mask_size d.ipnet))
      ∷ (codes "--gateway=" ++ gateway)
      ∷ (codes "--dns-forward=" ++ dns)
      ∷ given d.disable_host_loopback (codes "--no-map-gw")
    ++ given (not d.enable_ipv6) (codes "--ipv4-only")
    ++ port_options d.implicit_port_forwarding
    ++ given d.has_host_lo_to_ns_lo (codes "--host-lo-to-ns-lo")
    ++ (if is_empty netns
        then itoa pid ∷ []
        else (codes "--userns=/proc/" ++ itoa pid ++ codes "/ns/user")
          ∷ (codes "--netns=" ++ netns)
          ∷ [])

-- The message, with the addresses as texts.
unfoldable pub message_with : {V : Type 0} → Driver → ℤ → Bytes → Bytes → Bytes → InitNetwork V
message_with d netmask ip gateway dns = record {
  network = none;
  dev = d.ifname;
  ip = ip;
  netmask = netmask;
  gateway = gateway;
  dns = dns ∷ [];
  mtu = d.mtu;
  opaque = [];
}

module _ (sys : System) {V : Type 0} (d : Driver) (pid : ℤ) (netns : Bytes) where
  -- The run of pasta, and what follows.
  unfoldable pub run_pasta : Bytes → Bytes → Bytes → Act Call Error (InitNetwork V)
  unfolding command message_with
  run_pasta address gateway dns =
      call sys.kernel exec_failed (exec (command sys d pid netns address gateway dns))
      >> pure (message_with d (sys.mask_size d.ipnet) address gateway dns)

  -- `ConfigureNetwork`.
  unfoldable pub configure_network : Act Call Error (InitNetwork V)
  unfolding run_pasta
  configure_network = do
    address ← offset d.ipnet 100
    gateway ← offset d.ipnet 2
    dns ← offset d.ipnet 3
    run_pasta (sys.net.ip_string address) (sys.net.ip_string gateway) (sys.net.ip_string dns)

-- `ConfigureNetworkChild`.
unfoldable pub configure_network_child : {V : Type 0} → InitNetwork V → Bytes
configure_network_child msg = msg.dev
