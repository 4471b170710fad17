-- ===== src/Network/Opaque.antt =====
-- What a driver of the child finds in the message of its parent's.
use rootlesskit.Base.{◌≡◌, refl, sym, ap, subst, false, List, ◌∷◌, ok}
use rootlesskit.Text.{Bytes, codes, is_empty, str_eq}
use rootlesskit.Messages.{InitNetwork}
use rootlesskit.Calls.{◌>>◌, call, call-bind-ok}
use rootlesskit.Network.{Call, start, connect, connect_vif, start_failed, connect_failed}
use rootlesskit.Network.Gvisor.{find_opaque}
use rootlesskit.Network.Vpnkit.{
  System, Driver, ChildConfig, message, command, connect_with, new_vif, configure_network,
  child_config,
}

child_config-message :
    (V : Type 0) (sys : System) (d : Driver) (socket uuid : Bytes) (log : List Call)
    → is_empty d.ifname ≡ false
    → is_empty (sys.vif_mac log) ≡ false
    → is_empty socket ≡ false
    → is_empty uuid ≡ false
    → child_config (message sys {V = V} d socket uuid log)
      ≡ ok (record { tap = d.ifname; mac = sys.vif_mac log; socket = socket; uuid = uuid })
unfolding child_config message find_opaque str_eq
child_config-message V sys d socket uuid log h1 h2 h3 h4 = rw (h1, h2, h3, h4) refl

-- Where ConfigureNetwork of the vpnkit driver succeeds, the child's driver accepts its message: the
-- child gets the device, the socket that vpnkit was started with and that was connected to, the UUID
-- that the interface was then asked for with, and the hardware address of that interface. It is a
-- premise that none of them is empty.
pub configure_network-child :
    {V : Type 0} (sys : System) (d : Driver) (state_dir : Bytes) (log log' : List Call)
    (msg : InitNetwork V)
    → is_empty d.ifname ≡ false
    → is_empty (sys.join state_dir (codes "vpnkit-ethernet.sock")) ≡ false
    → ((before : List Call) → is_empty (sys.uuid before) ≡ false)
    → ((before : List Call) → is_empty (sys.vif_mac before) ≡ false)
    → configure_network sys d state_dir log ≡ (ok msg, log')
    → (c : ChildConfig) × (child_config msg ≡ ok c)
      × (c.tap ≡ d.ifname)
      × (c.mac ≡ sys.vif_mac log')
      × (log' ≡ connect_vif c.uuid ∷ connect c.socket ∷ start (command d c.socket) ∷ log)
unfolding configure_network new_vif connect_with
configure_network-child {V} sys d state_dir log log' msg h1 h2 h3 h4 h =
    let socket = sys.join state_dir (codes "vpnkit-ethernet.sock") in
    let started = start (command d socket) ∷ log in
    let connected = connect socket ∷ started in
    let uuid = sys.uuid connected in
    let last = connect_vif uuid ∷ connected in
    let told = message sys {V = V} d socket uuid last in
    let (_, _, e1) =
      call-bind-ok sys.kernel start_failed (start (command d socket))
        (λ _. call sys.kernel connect_failed (connect socket) >> new_vif sys d socket) log h in
    let (_, _, e2) =
      call-bind-ok sys.kernel connect_failed (connect socket) (λ _. new_vif sys d socket) started
        e1 in
    let (_, _, e3) =
      call-bind-ok sys.kernel connect_failed (connect_vif uuid)
        (λ _ l. (ok (message sys d socket uuid l), l)) connected e2 in
    let same_log : last ≡ log' = ap (λ o. o.1) e3 in
    let same_msg : told ≡ msg = cc in
    let config : ChildConfig = record {
      tap = d.ifname;
      mac = sys.vif_mac last;
      socket = socket;
      uuid = uuid;
    } in
    (
      config,
      subst (λ m. child_config m ≡ ok config) same_msg
          (child_config-message V sys d socket uuid last h1 (h4 last) h2 (h3 connected)),
      refl,
      ap sys.vif_mac same_log,
      sym same_log,
    )
