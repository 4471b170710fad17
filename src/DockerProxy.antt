-- ===== src/DockerProxy.antt =====
-- cmd/rootlesskit-docker-proxy/main.go: the replacement of docker-proxy, a client of the port
-- manager. The manager behind the client is a parameter, and so is what happens while the real
-- proxy runs.
pub mod Restores
pub mod Examples
use rootlesskit.Base.{
  any, if◌then◌else◌, ℤ, Bool, true, false, not, ◌&&◌, ◌||◌, Option, none, some, List, ◌++◌, Result,
  ok, err, ◌>>=◌, ◌>>◌, reject_if, wrap_err,
}
use rootlesskit.Text.{Bytes, codes, str_eq}
use rootlesskit.Text.Search.{has_suffix}
use rootlesskit.Net.{Net, to4}
use rootlesskit.Port.{Spec, Status}
use rootlesskit.Port.Manager.{Manager}
use rootlesskit.Api.{Info, NetworkDriverInfo, PortDriverInfo}

-- The flags that the port depends on.
pub record Flags : Type 0 where
  pub host_ip : Bytes
  pub host_port : ℤ
  pub proto : Bytes

pub data Error (E : Type 0) : Type 0 where
  no_port_driver : Error E
  -- `protocolUnsupportedError`: the protocol and the driver.
  unsupported : Bytes → Bytes → Error E
  add_failed : E → Error E
  no_child_ip : Error E
  -- The dereference of a nil `info.NetworkDriver`.
  nil_network_driver : Error E
  proxy_failed : Error E

-- How `xmain` ends without an error: the real proxy replaces the process, the request is
-- discarded, or the real proxy has been run and killed.
pub data Outcome : Type 0 where
  replaced discarded proxied : Outcome

is_v6 : Option Bytes → Bool
is_v6 none = false
is_v6 (some ip) = elim (to4 ip) [ none ↦ true | some v4 ↦ false ]

-- `isIPv6`.
unfoldable pub is_ipv6 : Net → Bytes → Bool
unfolding is_v6
is_ipv6 net ip_str = is_v6 (net.parse_ip ip_str)

-- The protocol with its address family.
unfoldable pub api_proto : Net → Bytes → Bytes → Bytes
api_proto net host_ip proto =
    if not (has_suffix proto (codes "4")) && not (has_suffix proto (codes "6"))
    then (if is_ipv6 net host_ip then proto ++ codes "6" else proto ++ codes "4")
    else proto

-- `getPortDriverProtos`, with the set of protocols as the list it is made from.
unfoldable pub port_driver_protos : {E : Type 0} → Info → Result (Error E) (Bytes × List Bytes)
port_driver_protos info = elim info.port_driver [
  | none ↦ err no_port_driver
  | some d ↦ ok (d.driver, d.protos)
]

-- The protocols that the driver has, looked up.
unfoldable pub check_supported : {E : Type 0} → Info → Bytes → Result (Error E) (Unit {0})
check_supported info proto = do
  (driver, protos) ← port_driver_protos info
  reject_if (not (any (str_eq proto) protos)) (unsupported proto driver)

abbrev pub requested : Net → Bytes → ℤ → Bytes → Bytes → Spec
requested net host_ip host_port proto child_ip = record {
  proto = api_proto net host_ip proto;
  parent_ip = host_ip;
  parent_port = host_port;
  child_ip = child_ip;
  child_port = host_port;
}

-- `info.PortDriver` is nil, "none" or "implicit".
unfoldable pub wants_real_proxy : Info → Bool
wants_real_proxy info = elim info.port_driver [
  | none ↦ true
  | some d ↦ str_eq d.driver (codes "none") || str_eq d.driver (codes "implicit")
]

network_child_ip : {E : Type 0} → Net → Option NetworkDriverInfo → Result (Error E) Bytes
network_child_ip net none = err nil_network_driver
network_child_ip net (some n) = elim n.child_ip [
  | none ↦ err no_child_ip
  | some ip ↦ ok (net.ip_string ip)
]

disallows_loopback : Option PortDriverInfo → Bool
disallows_loopback none = false
disallows_loopback (some d) = d.disallow_loopback_child_ip

-- The choice of the child IP.
unfoldable pub choose_child_ip : {E : Type 0} → Net → Info → Bytes → Result (Error E) Bytes
unfolding network_child_ip disallows_loopback
choose_child_ip net info host_ip =
    if disallows_loopback info.port_driver
    then network_child_ip net info.network_driver
    else ok (if is_ipv6 net host_ip then codes "::1" else codes "127.0.0.1")

module _ {S AddEnv RemoveEnv AddError RemoveError : Type 0}
    (m : Manager S AddEnv RemoveEnv AddError RemoveError) (net : Net) where
  finish_add : S × Result AddError Status → S × Result (Error AddError) Status
  finish_add (s, r) = (s, wrap_err add_failed r)

  -- `callRootlessKitAPI`; the port to remove stands for the function that removes it.
  unfoldable pub call_api : AddEnv → Info → Flags → Bytes → S → S × Result (Error AddError) Status
  unfolding finish_add
  call_api env info flags child_ip s =
      elim (check_supported info (api_proto net flags.host_ip flags.proto)) [
        | err e ↦ (s, err e)
        | ok _ ↦
            finish_add
              (m.add env (requested net flags.host_ip flags.host_port flags.proto child_ip) s)
      ]

  -- `xmain` after the call. `proxy` is the time of the real proxy, from its start to its end; the
  -- port is removed at last, whatever came of it, and an error of that is only logged.
  after_call :
      RemoveEnv
      → (S → S × Result (Error AddError) Outcome)
      → S × Result (Error AddError) Status
      → S × Result (Error AddError) Outcome
  after_call env proxy (s, err (unsupported p d)) = (s, ok discarded)
  after_call env proxy (s, err e) = (s, err e)
  after_call env proxy (s, ok st) = let (s', r) = proxy s in ((m.remove env st.id s').0, r)

  -- `xmain`, from the answer of `c.Info` on.
  unfoldable pub xmain :
      AddEnv
      → RemoveEnv
      → (S → S × Result (Error AddError) Outcome)
      → Info
      → Flags
      → S
      → S × Result (Error AddError) Outcome
  unfolding after_call
  xmain env remove_env proxy info flags s =
      if wants_real_proxy info
      then (s, ok replaced)
      else elim (choose_child_ip net info flags.host_ip) [
        | err e ↦ (s, err e)
        | ok ip ↦ after_call remove_env proxy (call_api env info flags ip s)
      ]
