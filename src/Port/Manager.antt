-- ===== src/Port/Manager.antt =====
-- `port.Manager` of pkg/port/port.go: what a port driver promises to its clients, the REST API and
-- the tools. Each driver fills the laws; the clients are proved from them.
use rootlesskit.Base.{if◌then◌else◌, ℤ, eq_ℤ, ◌≡◌, none, some, List, Result, ok, err}
use rootlesskit.Port.{Spec, Status}
use rootlesskit.Port.Table.{Table, lookup, Same}
use rootlesskit.Port.Validate.Accepts.{SameAddress}

-- The operations over a state `S`; `AddEnv` and `RemoveEnv` are what the system answers.
pub record Manager (S AddEnv RemoveEnv AddError RemoveError : Type 0) : Type 0 where
  pub add : AddEnv → Spec → S → S × Result AddError Status
  pub remove : RemoveEnv → ℤ → S → S × Result RemoveError (Unit {0})
  pub list : S → List Status
  pub ports : S → Table Status

module _ {S AddEnv RemoveEnv AddError RemoveError : Type 0}
    (m : Manager S AddEnv RemoveEnv AddError RemoveError) where
  -- `Fair` is what a driver needs of the system for an addition.
  pub record ManagerLaws (Inv : S → Type 0) (Fair : AddEnv → Spec → S → Type 0) : Type 0 where
    pub add-Inv :
        (env : AddEnv) (spec : Spec) (s : S) → Inv s → Fair env spec s → Inv (m.add env spec s).0
    pub remove-Inv : (env : RemoveEnv) (id : ℤ) (s : S) → Inv s → Inv (m.remove env id s).0
    -- An addition that succeeds adds one entry, at a new ID, for the address that was asked for.
    pub add_fresh :
        (env : AddEnv) (spec : Spec) (s : S) (st : Status)
        → Inv s
        → Fair env spec s
        → (m.add env spec s).1 ≡ ok st
        → lookup st.id (m.ports s) ≡ none
    pub add_address :
        (env : AddEnv) (spec : Spec) (s : S) (st : Status)
        → (m.add env spec s).1 ≡ ok st
        → SameAddress st.spec spec
    pub add_lookup :
        (env : AddEnv) (spec : Spec) (s : S) (st : Status) (j : ℤ)
        → (m.add env spec s).1 ≡ ok st
        → lookup j (m.ports (m.add env spec s).0)
          ≡ (if eq_ℤ st.id j then some st else lookup j (m.ports s))
    -- An addition that fails leaves the table as it was.
    pub add_failed :
        (env : AddEnv) (spec : Spec) (s : S) (e : AddError)
        → Inv s
        → (m.add env spec s).1 ≡ err e
        → Same (m.ports (m.add env spec s).0) (m.ports s)
    -- A removal that succeeds drops the entry and no other.
    pub remove_lookup :
        (env : RemoveEnv) (id j : ℤ) (s : S)
        → (m.remove env id s).1 ≡ ok tt
        → lookup j (m.ports (m.remove env id s).0)
          ≡ (if eq_ℤ id j then none else lookup j (m.ports s))
