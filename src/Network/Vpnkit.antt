-- ===== src/Network/Vpnkit.antt =====
-- The parent's driver of pkg/network/vpnkit/vpnkit.go, and the checks of the child's. The wait for
-- vpnkit to answer is one call.
use rootlesskit.Base.{
  if◌then◌else◌, ℤ, pos, ltb_ℤ, eq_ℤ, Bool, none, List, [], ◌∷◌, ◌++◌, Result, ok, ◌>>◌, reject_if,
}
use rootlesskit.Text.{Bytes, codes, is_empty}
use rootlesskit.Text.Decimal.{itoa}
use rootlesskit.Messages.{InitNetwork}
use rootlesskit.Calls
use rootlesskit.Calls.{Kernel, Act, call}
use rootlesskit.Network.{
  Call, Error, start, connect, connect_vif, start_failed, connect_failed, default_ifname,
}
use rootlesskit.Network.Gvisor.{find_opaque}

-- The constructor and `parentDriver` have the same fields.
pub record Driver : Type 0 where
  pub binary : Bytes
  pub mtu : ℤ
  pub ifname : Bytes
  pub disable_host_loopback : Bool

-- The constructor panics where the other drivers' return an error.
pub data Panic : Type 0 where
  empty_binary negative_mtu : Panic

-- `NewParentDriver`.
unfoldable pub new_parent_driver : Driver → Result Panic Driver
new_parent_driver d = do
  reject_if (is_empty d.binary) empty_binary
  reject_if (ltb_ℤ d.mtu (pos 0)) negative_mtu
  ok (record d {
    mtu = if eq_ℤ d.mtu (pos 0) then pos 1500 else d.mtu;
    ifname = default_ifname d.ifname;
  })

-- The kernel and `filepath.Join`; the UUID that is made, and the address of the interface and of
-- its hardware that vpnkit gives, by the calls made before.
pub record System : Type 0 where
  pub kernel : Kernel Call
  pub join : Bytes → Bytes → Bytes
  pub uuid : List Call → Bytes
  pub vif_ip : List Call → Bytes
  pub vif_mac : List Call → Bytes

unfoldable pub command : Driver → Bytes → List Bytes
command d socket =
    d.binary ∷ codes "--ethernet" ∷ socket ∷ codes "--mtu" ∷ itoa d.mtu ∷ []
    ++ (if d.disable_host_loopback then codes "--host-ip" ∷ codes "0.0.0.0" ∷ [] else [])

module _ (sys : System) {V : Type 0} where
  -- The message, with the answers to the calls.
  unfoldable pub message : Driver → Bytes → Bytes → List Call → InitNetwork V
  message d socket uuid log = record {
    network = none;
    dev = d.ifname;
    ip = sys.vif_ip log;
    netmask = pos 24;
    gateway = codes "192.168.65.1";
    dns = codes "192.168.65.1" ∷ [];
    mtu = d.mtu;
    opaque =
        (codes "vpnkit.mac", sys.vif_mac log)
        ∷ (codes "vpnkit.socket", socket)
        ∷ (codes "vpnkit.uuid", uuid)
        ∷ [];
  }

  unfoldable pub connect_with : Driver → Bytes → Bytes → Act Call Error (InitNetwork V)
  unfolding message
  connect_with d socket uuid =
      Calls.◌>>=◌ (call sys.kernel connect_failed (connect_vif uuid))
        (λ _ log. (ok (message d socket uuid log), log))

  unfoldable pub new_vif : Driver → Bytes → Act Call Error (InitNetwork V)
  unfolding connect_with
  new_vif d socket log = connect_with d socket (sys.uuid log) log

  -- `ConfigureNetwork`.
  unfoldable pub configure_network : Driver → Bytes → Act Call Error (InitNetwork V)
  unfolding command new_vif
  configure_network d state_dir =
      let socket = sys.join state_dir (codes "vpnkit-ethernet.sock") in
      Calls.◌>>◌ (call sys.kernel start_failed (start (command d socket)))
        (Calls.◌>>◌ (call sys.kernel connect_failed (connect socket)) (new_vif d socket))

pub data ChildError : Type 0 where
  no_dev no_mac no_socket no_uuid : ChildError

-- What the child's driver goes on with.
pub record ChildConfig : Type 0 where
  pub tap : Bytes
  pub mac : Bytes
  pub socket : Bytes
  pub uuid : Bytes

-- The checks of `ConfigureNetworkChild`.
unfoldable pub child_config : {V : Type 0} → InitNetwork V → Result ChildError ChildConfig
child_config msg = do
  let mac = find_opaque msg.opaque (codes "vpnkit.mac")
  let socket = find_opaque msg.opaque (codes "vpnkit.socket")
  let uuid = find_opaque msg.opaque (codes "vpnkit.uuid")
  reject_if (is_empty msg.dev) no_dev
  reject_if (is_empty mac) no_mac
  reject_if (is_empty socket) no_socket
  reject_if (is_empty uuid) no_uuid
  ok (record { tap = msg.dev; mac = mac; socket = socket; uuid = uuid })
