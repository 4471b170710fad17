-- ===== src/Network/Examples.antt =====
-- The drivers of vpnkit, and of slirp4netns and pasta on 10.0.2.0/24.
use rootlesskit.Base.{
  All, ◌==◌, if◌then◌else◌, pos, ◌+ℤ◌, ◌≡◌, refl, inr, true, false, none, some, List, [], ◌∷◌, ◌++◌,
  arith, Result, ok,
}
use rootlesskit.Text.{Bytes, codes}
use rootlesskit.Messages.{InitNetwork}
use rootlesskit.Net.{Net}
use rootlesskit.Options.{IpNet}
use rootlesskit.Network.{System, Call, Error, exec, start, connect, connect_vif}
use rootlesskit.Network.Vpnkit
use rootlesskit.Network.Opaque.{configure_network-child}
use rootlesskit.Network.Features.{Machine, Config, new_parent_driver}
use rootlesskit.Network.Slirp4netns
use rootlesskit.Network.Slirp4netns.{message, CliOption, options}
use rootlesskit.Network.Pasta
use rootlesskit.Network.Addresses.{IsNet, Three, message-Three}
use rootlesskit.Network.Agreement.{configure_network-agree}
use rootlesskit.Network.Supported.{IsSupported, options-AreSupported}

abbrev subnet : IpNet
subnet = record { ip = 10 ∷ 0 ∷ 2 ∷ 0 ∷ []; mask = 255 ∷ 255 ∷ 255 ∷ 0 ∷ [] }

-- How the addresses of the network are printed.
abbrev print : Bytes → Bytes
print (a ∷ b ∷ c ∷ d ∷ []) =
    if d == 100 then codes "10.0.2.100" else if d == 2 then codes "10.0.2.2" else codes "10.0.2.3"
print ip = []

abbrev machine : System
machine = record {
  kernel = λ log c. ok [];
  net = record { parse_ip = λ s. none; ip_string = print };
  net_string = λ n. codes "10.0.2.0/24";
  mask_size = λ n. pos 24;
}

abbrev config : Config
config = record {
  binary = codes "slirp4netns";
  mtu = pos 65520;
  ipnet = none;
  ifname = codes "tap0";
  disable_host_loopback = true;
  api_socket_path = codes "/run/api.sock";
  enable_sandbox = false;
  enable_seccomp = false;
  enable_ipv6 = false;
}

abbrev pasta : Pasta.Driver
pasta = record {
  binary = codes "pasta";
  mtu = pos 65520;
  ipnet = subnet;
  ifname = codes "tap0";
  disable_host_loopback = true;
  enable_ipv6 = false;
  implicit_port_forwarding = true;
  has_host_lo_to_ns_lo = true;
}

subnet-IsNet : IsNet subnet 167772672 256
unfolding rootlesskit.IpUtils.uint32
subnet-IsNet = record { four = refl; number = refl; ends = omega arith }

abbrev slirp_out : Result Error (InitNetwork (Unit {0})) × List Call
slirp_out = Slirp4netns.configure_network machine config (pos 9) [] []

abbrev pasta_out : Result Error (InitNetwork (Unit {0})) × List Call
pasta_out = Pasta.configure_network machine pasta (pos 9) [] []

abbrev told : InitNetwork (Unit {0})
told = record {
  network = none;
  dev = codes "tap0";
  ip = codes "10.0.2.100";
  netmask = pos 24;
  gateway = codes "10.0.2.2";
  dns = codes "10.0.2.3" ∷ [];
  mtu = pos 65520;
  opaque = [];
}

-- What pasta's driver tells the child.
abbrev told_by_pasta : InitNetwork (Unit {0})
told_by_pasta = told

slirp_told : slirp_out.0 ≡ ok told
unfolding Slirp4netns.configure_network
slirp_told = refl

message-Three_example :
    (msg : InitNetwork (Unit {0})) × (message machine config (some subnet) [] ≡ (ok msg, []))
    × Three machine 167772672 256 100 2 3 msg
message-Three_example =
    message-Three machine config subnet 167772672 24 [] (omega arith) subnet-IsNet

configure_network-agree_example : told ≡ told_by_pasta
unfolding rootlesskit.IpUtils.put_uint32 Slirp4netns.configure_network Pasta.configure_network
    rootlesskit.Network.offset rootlesskit.IpUtils.add_ip_int rootlesskit.Net.to4
    rootlesskit.IpUtils.uint32 rootlesskit.Base.◌+ℤ◌ rootlesskit.IpUtils.to_uint32
configure_network-agree_example =
    configure_network-agree machine config pasta 167772672 256 (pos 9) (pos 9) [] [] [] []
      slirp_out.1 pasta_out.1 told told_by_pasta subnet-IsNet (omega arith)
      (inr (refl, (refl, refl, refl, refl))) refl refl refl refl refl

abbrev host : Machine
host = record {
  help = λ b. some (codes "--netns-type --disable-host-loopback --api-socket");
  seccomp = false;
}

options-AreSupported_example :
    (help : Bytes) × (host.help config.binary ≡ some help)
    × All (IsSupported help) (options machine config)
unfolding new_parent_driver rootlesskit.Network.Features.detect_features
    rootlesskit.Network.default_mtu rootlesskit.Network.default_ifname
options-AreSupported_example = options-AreSupported machine host config config refl

abbrev vpnkit : Vpnkit.Driver
vpnkit = record {
  binary = codes "vpnkit";
  mtu = pos 1500;
  ifname = codes "tap0";
  disable_host_loopback = true;
}

abbrev vpnkit_machine : Vpnkit.System
vpnkit_machine = record {
  kernel = λ log c. ok [];
  join = λ dir name. dir ++ 47 ∷ name;
  uuid = λ log. codes "e2a1";
  vif_ip = λ log. codes "192.168.65.3";
  vif_mac = λ log. codes "02:50:00:00:00:01";
}

abbrev vpnkit_socket : Bytes
vpnkit_socket = codes "/run/vpnkit-ethernet.sock"

abbrev vpnkit_log : List Call
vpnkit_log =
    connect_vif (codes "e2a1")
    ∷ connect vpnkit_socket
    ∷ start (Vpnkit.command vpnkit vpnkit_socket)
    ∷ []

abbrev vpnkit_told : InitNetwork (Unit {0})
vpnkit_told = Vpnkit.message vpnkit_machine vpnkit vpnkit_socket (codes "e2a1") vpnkit_log

configure_network-child_example :
    (c : Vpnkit.ChildConfig) × (Vpnkit.child_config vpnkit_told ≡ ok c)
    × (c.tap ≡ codes "tap0")
    × (c.mac ≡ codes "02:50:00:00:00:01")
    × (vpnkit_log
        ≡ connect_vif c.uuid ∷ connect c.socket ∷ start (Vpnkit.command vpnkit c.socket) ∷ [])
unfolding Vpnkit.configure_network
configure_network-child_example =
    configure_network-child vpnkit_machine vpnkit (codes "/run") [] vpnkit_log vpnkit_told refl refl
      (λ _. refl) (λ _. refl) refl
