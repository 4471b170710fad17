-- ===== src/Slirp.antt =====
-- pkg/port/slirp4netns/slirp4netns.go: the port driver "slirp4netns". The API of slirp4netns is an
-- argument, the function from a request to the outcome of `callAPI`.
pub mod Manager
pub mod Examples
use rootlesskit.Base.{
  if◌then◌else◌, ℤ, Bool, Option, none, some, List, [], ◌∷◌, Result, ok, err, ◌>>=◌, ◌>>◌,
  reject_if, or_fail, wrap_err,
}
use rootlesskit.Text.{Bytes, codes}
use rootlesskit.Text.Search.{has_suffix, trim_suffix}
use rootlesskit.Net.{Net, to4}
use rootlesskit.Port.{Spec, Status}
use rootlesskit.Port.Table.{Table, store, delete, values}
use rootlesskit.Port.Validate
use rootlesskit.Port.Validate.{validate_port_spec}

pub record Driver : Type 0 where
  pub api_socket_path : Bytes
  -- Can be empty.
  pub child_ip : Bytes
  pub ports : Table Status

-- `addHostFwdArguments` and `removeHostFwdArguments`, with the name to execute.
pub data Request : Type 0 where
  add_hostfwd : Bytes → Bytes → ℤ → Bytes → ℤ → Request
  remove_hostfwd : ℤ → Request

-- The value of "id" in a reply: a JSON number, given by its `int` conversion, or another value.
pub data IdValue : Type 0 where
  number : ℤ → IdValue
  other_value : IdValue

-- `reply`: whether "error" has members, and the member "id" of "return".
pub record Reply : Type 0 where
  pub has_error : Bool
  pub return_id : Option IdValue

-- `callAPI`: no reply if the socket or the decoding fails.
abbrev pub Api : Type 0
Api = Request → Option Reply

pub data Error : Type 0 where
  no_api_socket : Error
  invalid : Validate.Error → Error
  unsupported_proto : Bytes → Error
  invalid_ip : Bytes → Error
  unsupported_ip : Bytes → Error
  api_failed reply_error unexpected_reply unexpected_id : Error

-- `NewParentDriver`.
unfoldable pub new_parent_driver : Bytes → Result Error Driver
new_parent_driver [] = err no_api_socket
new_parent_driver (c ∷ path) = ok (record { api_socket_path = c ∷ path; child_ip = []; ports = [] })

-- `RunParentDriver`, up to its wait: the IP of the context, if there is one and it is IPv4.
unfoldable pub run_parent_driver : Net → Option Bytes → Driver → Driver
run_parent_driver net none d = d
run_parent_driver net (some ip) d = elim (to4 ip) [
  | none ↦ d
  | some ip4 ↦ record d { child_ip = net.ip_string ip4 }
]

-- The guest address of a request.
unfoldable pub guest_addr : Net → Driver → Bytes → Result Error Bytes
guest_addr net d [] = ok d.child_ip
guest_addr net d (c ∷ s) = do
  ip ← or_fail (net.parse_ip (c ∷ s)) (invalid_ip (c ∷ s))
  ip4 ← or_fail (to4 ip) (unsupported_ip (c ∷ s))
  ok (net.ip_string ip4)

-- The ID in a reply.
reply_id : IdValue → Result Error ℤ
reply_id (number id) = ok id
reply_id other_value = err unexpected_id

unfoldable pub read_id : Reply → Result Error ℤ
unfolding reply_id
read_id rep = do
  reject_if rep.has_error reply_error
  v ← or_fail rep.return_id unexpected_reply
  reply_id v

-- The checks and the call of `AddPort`, to the ID that slirp4netns gave.
unfoldable pub request_forward : Net → Api → Spec → Driver → Result Error ℤ
request_forward net api spec d = do
  wrap_err invalid (validate_port_spec net spec d.ports)
  reject_if (has_suffix spec.proto (codes "6")) (unsupported_proto spec.proto)
  ip ← guest_addr net d spec.child_ip
  let proto = trim_suffix spec.proto (codes "4")
  rep ←
      or_fail (api (add_hostfwd proto spec.parent_ip spec.parent_port ip spec.child_port))
        api_failed
  read_id rep

record_port : Spec → Driver → Result Error ℤ → Driver × Result Error Status
record_port spec d (err e) = (d, err e)
record_port spec d (ok id) =
    let st : Status = record { id = id; spec = spec } in
    (record d { ports = store id st d.ports }, ok st)

-- `AddPort`, all of it under the lock.
unfoldable pub add_port : Net → Api → Spec → Driver → Driver × Result Error Status
unfolding record_port
add_port net api spec d = record_port spec d (request_forward net api spec d)

-- `ListPorts`.
unfoldable pub list_ports : Driver → List Status
list_ports d = values d.ports

after_remove : ℤ → Driver → Option Reply → Driver × Result Error (Unit {0})
after_remove id d none = (d, err api_failed)
after_remove id d (some rep) =
    if rep.has_error then (d, err reply_error) else (record d { ports = delete id d.ports }, ok tt)

-- `RemovePort`, all of it under the lock.
unfoldable pub remove_port : Api → ℤ → Driver → Driver × Result Error (Unit {0})
unfolding after_remove
remove_port api id d = after_remove id d (api (remove_hostfwd id))
