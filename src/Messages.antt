-- ===== src/Messages.antt =====
-- pkg/messages/messages.go: the messages of parent and child, sent as frames of JSON. The JSON
-- codec is a parameter.
pub mod Exchange
pub mod Examples
use rootlesskit.Base.{
  if◌then◌else◌, ℤ, Bool, true, false, not, Option, none, some, List, [], ◌∷◌, Result, ok, err,
  ◌>>=◌, ◌>>◌, reject_if, wrap_err,
}
use rootlesskit.Text.{Bytes, codes, str_eq, is_empty}
use rootlesskit.Api.{Codec}
use rootlesskit.Framing
use rootlesskit.Framing.{Stream, marshal_to_writer, unmarshal_from_reader}

-- `ParentInitNetworkDriverCompleted`; `V` is what the interface `Network` holds.
pub record InitNetwork (V : Type 0) : Type 0 where
  pub network : Option V
  pub dev : Bytes
  pub ip : Bytes
  pub netmask : ℤ
  pub gateway : Bytes
  pub dns : List Bytes
  pub mtu : ℤ
  pub opaque : List (Bytes × Bytes)

-- `ParentInitPortDriverCompleted`.
pub record InitPort : Type 0 where
  pub opaque : List (Bytes × Bytes)

-- `U`: pointers, of which `none` is nil. The first four point to empty structs.
pub record Union (V : Type 0) : Type 0 where
  pub parent_hello : Option (Unit {0})
  pub child_hello : Option (Unit {0})
  pub idmap_completed : Option (Unit {0})
  pub userns_completed : Option (Unit {0})
  pub network_completed : Option (InitNetwork V)
  pub port_completed : Option InitPort

pub record Message (V : Type 0) : Type 0 where
  pub name : Bytes
  pub u : Union V

pub data Error : Type 0 where
  no_member : Error
  send_failed receive_failed : Framing.Error → Error
  no_name : Error
  -- The name expected, and the one received.
  unexpected : Bytes → Bytes → Error

is_set {ℓ} : {A : Type ℓ} → Option A → Bool
is_set none = false
is_set (some a) = true

-- The fields of the union that reflection goes through: their names, and whether they are set.
fields : {V : Type 0} → Union V → List (Bytes × Bool)
unfolding is_set
fields u =
    (codes "ParentHello", is_set u.parent_hello)
    ∷ (codes "ChildHello", is_set u.child_hello)
    ∷ (codes "ParentInitIdmapCompleted", is_set u.idmap_completed)
    ∷ (codes "ChildInitUserNSCompleted", is_set u.userns_completed)
    ∷ (codes "ParentInitNetworkDriverCompleted", is_set u.network_completed)
    ∷ (codes "ParentInitPortDriverCompleted", is_set u.port_completed)
    ∷ []

-- The loop of `FulfillName`.
first_set : List (Bytes × Bool) → Option Bytes
first_set [] = none
first_set ((name, true) ∷ rest) = some name
first_set ((name, false) ∷ rest) = first_set rest

with_name : {V : Type 0} → Message V → Option Bytes → Result Error (Message V)
with_name m none = err no_member
with_name m (some name) = ok (record m { name = name })

-- `FulfillName`, with the message that it leaves.
unfoldable pub fulfill_name : {V : Type 0} → Message V → Result Error (Message V)
unfolding fields first_set with_name
fulfill_name m = with_name m (first_set (fields m.u))

-- The first lines of `Send`: a name that is there is kept.
unfoldable pub named : {V : Type 0} → Message V → Result Error (Message V)
named m = if is_empty m.name then fulfill_name m else ok m

module _ {V : Type 0} (json : Codec (Message V)) where
  -- `Send`, as the bytes written.
  unfoldable pub send : Message V → Result Error Bytes
  send m = do m' ← named m; wrap_err send_failed (marshal_to_writer json m')

  -- `Recv`, with what it leaves of the stream.
  unfoldable pub recv : Stream → Result Error (Message V × Stream)
  recv r = do
    (m, rest) ← wrap_err receive_failed (unmarshal_from_reader json r)
    reject_if (is_empty m.name) no_name
    ok (m, rest)

  -- `WaitFor`.
  unfoldable pub wait_for : Bytes → Stream → Result Error (Message V × Stream)
  wait_for name r = do
    (m, rest) ← recv r
    reject_if (not (str_eq m.name name)) (unexpected name m.name)
    ok (m, rest)
