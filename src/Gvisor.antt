-- ===== src/Gvisor.antt =====
-- pkg/port/gvisortapvsock/gvisortapvsock.go: the port driver "gvisor-tap-vsock". The services mux of
-- the virtual network is an argument, the function from a request to the outcome of the call.
pub mod Manager
pub mod Startup
pub mod Examples
use rootlesskit.Base.{
  ◌==◌, if◌then◌else◌, ℤ, pos, ℕ, Bool, false, not, ◌||◌, Option, none, some, List, [], ◌∷◌, ◌++◌,
  Result, ok, err, is_ok,
}
use rootlesskit.Text.{Bytes, codes, is_empty}
use rootlesskit.Text.Search.{has_prefix, trim_prefix}
use rootlesskit.Text.Decimal.{itoa}
use rootlesskit.Port.{Spec, Status}
use rootlesskit.Port.Table.{Table, lookup, store, delete, values}
use rootlesskit.Builtin.{next_int}

-- `types.TransportProtocol`.
pub data Transport : Type 0 where
  tcp udp : Transport

-- `types.ExposeRequest` and `types.UnexposeRequest`.
pub data Request : Type 0 where
  expose : Transport → Bytes → Bytes → Request
  unexpose : Transport → Bytes → Request

-- What becomes of a request: http.NewRequest refuses its URL, or the mux answers with a status.
pub data Served : Type 0 where
  bad_request : Served
  status : ℕ → Served

-- `d.servicesMux`; `nil` is `none`.
abbrev pub Mux : Type 0
Mux = Option (Request → Served)

pub record Driver : Type 0 where
  pub ports : Table Status
  pub port_seq : ℤ
  pub child_ip : Bytes
  pub gateway_ip : Bytes
  pub has_cancel : Bool
  pub services_mux : Mux
  -- Whether a call that has returned still holds `d.mu`.
  pub locked : Bool

-- `NewParentDriver`.
abbrev pub new_parent_driver : Driver
new_parent_driver = record {
  ports = [];
  port_seq = pos 1;
  child_ip = [];
  gateway_ip = [];
  has_cancel = false;
  services_mux = none;
  locked = false;
}

pub data Error : Type 0 where
  unsupported_proto : Bytes → Error
  no_mux : Error
  request_failed : Error
  status_failed : ℕ → Error
  unknown_port_id : ℤ → Error

check_served : Served → Result Error (Unit {0})
check_served bad_request = err request_failed
check_served (status code) = if code == 200 then ok tt else err (status_failed code)

-- `exposePort` and `unexposePort`, which differ in the request alone.
unfoldable pub call_mux : Mux → Request → Result Error (Unit {0})
unfolding check_served
call_mux none req = err no_mux
call_mux (some serve) req = check_served (serve req)

-- `fmt.Sprintf("%s:%d", ip, port)`.
abbrev pub address : Bytes → ℤ → Bytes
address ip port = ip ++ b':' ∷ itoa port

unfoldable pub transport_of : Bytes → Transport
unfolding has_prefix
transport_of proto = if has_prefix proto (codes "udp") then udp else tcp

-- The key of a forward: UDP addresses get a prefix.
abbrev pub tracked : Transport → Bytes → Bytes
tracked udp a = codes "udp:" ++ a
tracked tcp a = a

-- The prefix is taken off again for the request.
unfoldable pub untracked : Transport → Bytes → Bytes
unfolding trim_prefix
untracked udp a = trim_prefix a (codes "udp:")
untracked tcp a = a

-- `if spec.ChildIP == "" { spec.ChildIP = d.childIP }`.
abbrev pub with_child_ip : Driver → Spec → Spec
with_child_ip d spec =
    if is_empty spec.child_ip then record spec { child_ip = d.child_ip } else spec

-- The locked part of `AddPort` behind its check: the entry is there before the port is exposed.
unfoldable pub register : Spec → Driver → Driver
unfolding next_int
register spec d = record d {
  ports = store d.port_seq (record { id = d.port_seq; spec = spec }) d.ports;
  port_seq = next_int d.port_seq;
}

unfoldable pub expose_request : Spec → Request
unfolding transport_of untracked
expose_request spec =
    let protocol = transport_of spec.proto in
    let local_addr = tracked protocol (address spec.parent_ip spec.parent_port) in
    expose protocol (untracked protocol local_addr) (address spec.child_ip spec.child_port)

-- The end of `AddPort`: the entry goes if the port was not exposed.
finish_add : Spec → ℤ → Driver → Result Error (Unit {0}) → Driver × Result Error Status
finish_add spec id d (ok _) = (d, ok (record { id = id; spec = spec }))
finish_add spec id d (err e) = (record d { ports = delete id d.ports }, err e)

-- `strings.HasPrefix(spec.Proto, "tcp")` or "udp".
abbrev pub is_supported : Bytes → Bool
is_supported proto = has_prefix proto (codes "tcp") || has_prefix proto (codes "udp")

unfoldable pub add_checked : Spec → Driver → Driver × Result Error Status
unfolding finish_add
add_checked spec d =
    finish_add spec d.port_seq (register spec d) (call_mux d.services_mux (expose_request spec))

-- `AddPort`. It does not call ValidatePortSpec.
unfoldable pub add_port : Spec → Driver → Driver × Result Error Status
add_port spec d =
    if is_supported spec.proto
    then add_checked (with_child_ip d spec) d
    else (d, err (unsupported_proto spec.proto))

-- `ListPorts`.
unfoldable pub list_ports : Driver → List Status
list_ports d = values d.ports

unfoldable pub unexpose_request : Spec → Request
unfolding transport_of untracked
unexpose_request spec =
    let protocol = transport_of spec.proto in
    let local_addr = tracked protocol (address spec.parent_ip spec.parent_port) in
    unexpose protocol (untracked protocol local_addr)

-- `RemovePort`, with whether a warning is logged. A failure to unexpose is not reported.
unfoldable pub remove_port : ℤ → Driver → Driver × Bool × Result Error (Unit {0})
remove_port id d = elim (lookup id d.ports) [
  | none ↦ (d, false, err (unknown_port_id id))
  | some st ↦ (
    record d { ports = delete id d.ports },
    not (is_ok (call_mux d.services_mux (unexpose_request st.spec))),
    ok tt,
  )
]
