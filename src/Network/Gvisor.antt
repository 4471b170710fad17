-- ===== src/Network/Gvisor.antt =====
-- The parent's driver of pkg/network/gvisortapvsock/gvisortapvsock.go, up to the connections that it
-- accepts; the virtual network is a parameter.
use rootlesskit.Base.{
  if◌then◌else◌, ℤ, pos, ltb_ℤ, Bool, true, some, List, [], ◌∷◌, Result, ok, err,
}
use rootlesskit.Text.{Bytes, codes, is_empty, str_eq}
use rootlesskit.Messages.{InitNetwork}
use rootlesskit.Calls.{Act, ◌>>=◌, ◌>>◌, call, pure, fail_if}
use rootlesskit.Options.{IpNet}
use rootlesskit.Network.{
  System, Call, Error, negative_mtu, mkdir_all, remove_all, listen, new_virtual_network,
  mkdir_failed, remove_failed, listen_failed, network_failed, prepare_tap, offset, default_mtu,
  default_ifname,
}

-- The constructor and `parentDriver` have the same fields.
pub record Driver : Type 0 where
  pub mtu : ℤ
  pub ipnet : IpNet
  pub ifname : Bytes
  pub disable_host_loopback : Bool
  pub enable_ipv6 : Bool

-- `NewParentDriver`.
unfoldable pub new_parent_driver : {C : Type 0} → Driver → Act C Error Driver
new_parent_driver d = do
  fail_if (ltb_ℤ d.mtu (pos 0)) negative_mtu
  pure (record d { mtu = default_mtu d.mtu; ifname = default_ifname d.ifname })

-- `types.Configuration`, as far as the driver sets it.
pub record NetConfig : Type 0 where
  pub mtu : ℤ
  pub subnet : Bytes
  pub gateway_ip : Bytes
  pub gateway_mac : Bytes
  pub ec2_metadata_access : Bool
  pub nat : List (Bytes × Bytes)

-- The configuration in `setupVirtualNetwork`.
unfoldable pub net_config : System → Driver → Bytes → NetConfig
net_config sys d gateway = record {
  mtu = d.mtu;
  subnet = sys.net_string d.ipnet;
  gateway_ip = gateway;
  gateway_mac = codes "5a:94:ef:e4:0c:dd";
  ec2_metadata_access = true;
  nat = if d.disable_host_loopback then [] else (codes "10.0.2.1", codes "127.0.0.1") ∷ [];
}

module _ (sys : System) (join : Bytes → Bytes → Bytes) {V : Type 0}
    (new_network : NetConfig → V) where
  -- `setupGvisortapvsockDir` and `setupSocket`: the path of the socket.
  set_up_socket : Bytes → Act Call Error Bytes
  set_up_socket state_dir = do
    let dir = join state_dir (codes "gvisortapvsock")
    let socket = join dir (codes "tap.sock")
    call sys.kernel mkdir_failed (mkdir_all dir)
    call sys.kernel remove_failed (remove_all socket)
    call sys.kernel listen_failed (listen socket)
    pure socket

  -- `setupVirtualNetwork`.
  set_up_network : Driver → Bytes → Act Call Error V
  set_up_network d gateway = do
    call sys.kernel network_failed new_virtual_network
    pure (new_network (net_config sys d gateway))

  -- `prepareNetworkMessage`, with `setupDNSServers`, and the socket that is added to it.
  prepare_message : Driver → V → Bytes → Bytes → Bytes → Act Call Error (InitNetwork V)
  prepare_message d vn socket ip gateway = do
    dns ← offset d.ipnet 1
    pure (record {
      network = some vn;
      dev = d.ifname;
      ip = ip;
      netmask = sys.mask_size d.ipnet;
      gateway = gateway;
      dns = sys.net.ip_string dns ∷ [];
      mtu = d.mtu;
      opaque = (codes "socketPath", socket) ∷ [];
    })

  -- `ConfigureNetwork`, with `setupNetworkConfig`.
  unfoldable pub configure_network : Driver → ℤ → Bytes → Bytes → Act Call Error (InitNetwork V)
  unfolding prepare_tap set_up_socket set_up_network prepare_message
  configure_network d pid state_dir netns = do
    prepare_tap sys.kernel pid netns d.ifname
    ip ← offset d.ipnet 100
    gateway ← offset d.ipnet 1
    socket ← set_up_socket state_dir
    vn ← set_up_network d (sys.net.ip_string gateway)
    prepare_message d vn socket (sys.net.ip_string ip) (sys.net.ip_string gateway)

unfoldable pub find_opaque : List (Bytes × Bytes) → Bytes → Bytes
find_opaque [] k = []
find_opaque ((name, value) ∷ rest) k =
    let next = find_opaque rest k in if str_eq name k then value else next

pub data ChildError : Type 0 where
  no_tap no_socket : ChildError

-- The checks of `ConfigureNetworkChild`: the device and the socket to connect to.
unfoldable pub child_config : {V : Type 0} → InitNetwork V → Result ChildError (Bytes × Bytes)
unfolding find_opaque
child_config msg =
    if is_empty msg.dev
    then err no_tap
    else let socket = find_opaque msg.opaque (codes "socketPath") in
      if is_empty socket then err no_socket else ok (msg.dev, socket)
