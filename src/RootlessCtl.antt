-- ===== src/RootlessCtl.antt =====
-- cmd/rootlessctl: the actions of the commands on ports, over a port manager, and the path of the
-- socket (newClient in main.go). The connection, JSON and the table's writer are parameters.
pub mod Printed
pub mod Examples
use rootlesskit.Base.{
  length, leb, if◌then◌else◌, ℤ, ℕ, suc, Bool, not, Option, List, [], ◌∷◌, Result, ok, err, ◌>>=◌,
  ◌>>◌, reject_if, or_fail, wrap_err,
}
use rootlesskit.Text.{Bytes, codes, is_empty}
use rootlesskit.Text.Decimal.{atoi, itoa}
use rootlesskit.Net.{Net}
use rootlesskit.Port.{Spec, Status}
use rootlesskit.Port.Parse
use rootlesskit.Port.Parse.{parse_port_spec, Token}
use rootlesskit.Port.Manager.{Manager}

pub data Error (A R : Type 0) : Type 0 where
  -- No argument, or neither the flag nor the variable.
  no_port no_id no_socket : Error A R
  bad_spec : Parse.Error → Error A R
  bad_id : Bytes → Error A R
  connect_failed marshal_failed : Error A R
  add_failed : A → Error A R
  remove_failed : R → Error A R

-- The flags, the variable ROOTLESSKIT_STATE_DIR, and what the program meets: `filepath.Join`,
-- `client.New` at a path, and `json.Marshal` of a status.
pub record Context : Type 0 where
  pub socket : Bytes
  pub json : Bool
  pub state_dir : Bytes
  pub join : Bytes → Bytes → Bytes
  pub connects : Bytes → Bool
  pub marshal : Status → Option Bytes

module _ {A R : Type 0} where
  -- The path of the socket.
  unfoldable pub socket_path : Context → Result (Error A R) Bytes
  socket_path c =
      if is_empty c.socket
      then (if is_empty c.state_dir
          then err no_socket
          else ok (c.join c.state_dir (codes "api.sock")))
      else ok c.socket

  -- `newClient`.
  unfoldable pub new_client : Context → Result (Error A R) (Unit {0})
  new_client c = do path ← socket_path c; reject_if (not (c.connects path)) connect_failed

  -- The line for a port that was added.
  unfoldable pub line : Context → Status → Result (Error A R) Bytes
  line c st = if c.json then or_fail (c.marshal st) marshal_failed else ok (itoa st.id)

  unfoldable pub parse_specs :
      Net → (Bytes → List Token) → List Bytes → Result (Error A R) (List Spec)
  parse_specs net scan [] = ok []
  parse_specs net scan (s ∷ ss) = do
    sp ← wrap_err bad_spec (parse_port_spec net scan s)
    rest ← parse_specs net scan ss
    ok (sp ∷ rest)

  unfoldable pub parse_ids : List Bytes → Result (Error A R) (List ℤ)
  parse_ids [] = ok []
  parse_ids (s ∷ ss) = do id ← or_fail (atoi s) (bad_id s); rest ← parse_ids ss; ok (id ∷ rest)

module _ {S AddEnv RemoveEnv A R : Type 0} (m : Manager S AddEnv RemoveEnv A R) (c : Context) where
  -- The loop over AddPort, with the ports that were added and their lines printed. The n-th call
  -- meets `env n`.
  unfoldable pub add_all :
      (ℕ → AddEnv) → List Spec → S → S × List (Status × Bytes) × Result (Error A R) (Unit {0})
  add_all env [] s = (s, [], ok tt)
  add_all env (sp ∷ rest) s =
      let (s', r) = m.add (env 0) sp s in
      elim r [
        | err e ↦ (s', [], err (add_failed e))
        | ok st ↦ elim (line {A = A} {R = R} c st) [
          | err e ↦ (s', [], err e)
          | ok l ↦
              let (s'', printed, out) = add_all (λ n. env (suc n)) rest s' in
              (s'', (st, l) ∷ printed, out)
        ]
      ]

  -- The loop over RemovePort.
  unfoldable pub remove_all :
      (ℕ → RemoveEnv) → List ℤ → S → S × List ℤ × Result (Error A R) (Unit {0})
  remove_all env [] s = (s, [], ok tt)
  remove_all env (id ∷ rest) s =
      let (s', r) = m.remove (env 0) id s in
      elim r [
        | err e ↦ (s', [], err (remove_failed e))
        | ok _ ↦
            let (s'', printed, out) = remove_all (λ n. env (suc n)) rest s' in
            (s'', id ∷ printed, out)
      ]

  unfoldable pub checked_specs :
      Net → (Bytes → List Token) → List Bytes → Result (Error A R) (List Spec)
  checked_specs net scan args = do
    reject_if (leb (length args) 0) no_port
    specs ← parse_specs net scan args
    new_client c
    ok specs

  -- `addPortsAction`.
  unfoldable pub add_ports_action :
      Net
      → (Bytes → List Token)
      → (ℕ → AddEnv)
      → List Bytes
      → S
      → S × List (Status × Bytes) × Result (Error A R) (Unit {0})
  unfolding checked_specs
  add_ports_action net scan env args s = elim (checked_specs net scan args) [
    | err e ↦ (s, [], err e)
    | ok specs ↦ add_all env specs s
  ]

  unfoldable pub checked_ids : List Bytes → Result (Error A R) (List ℤ)
  checked_ids args = do
    reject_if (leb (length args) 0) no_id
    ids ← parse_ids args
    new_client c
    ok ids

  -- `removePortsAction`.
  unfoldable pub remove_ports_action :
      (ℕ → RemoveEnv) → List Bytes → S → S × List ℤ × Result (Error A R) (Unit {0})
  unfolding checked_ids
  remove_ports_action env args s = elim (checked_ids args) [
    | err e ↦ (s, [], err e)
    | ok ids ↦ remove_all env ids s
  ]
