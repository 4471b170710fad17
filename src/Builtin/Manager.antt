-- ===== src/Builtin/Manager.antt =====
-- The builtin driver keeps the promises of `port.Manager`.
use mathlib.Core.Option
use rootlesskit.Base.{
  if◌then◌else◌, Option-cases, ℤ, pos, ◌≤ℤ◌, eq_ℤ, eq_ℤ_iff, ◌+ℤ◌, ◌≡◌, refl, ◌≢◌, ◌⊎◌, inl, inr,
  false, none, some, arith, ok, err, ◌>>◌, wrap_err, Result-cases,
}
use rootlesskit.Port.Validate.{validate_port_spec}
use rootlesskit.Net.{Net}
use rootlesskit.Port.Manager.{Manager, ManagerLaws}
use rootlesskit.Text.Decimal.{max_int}
use rootlesskit.Port.{Spec, Status}
use rootlesskit.Port.Table.{lookup, lookup-store, lookup-delete}
use rootlesskit.Builtin.{
  Driver, next_int, commit, new_driver, finish_add, remove_port, list_ports, add_port,
  start_routine, invalid, Env, Error, Stopping, StopError, stopped, routine_stop,
}

-- IDs at or above the counter are free, an entry stands under its own ID, and the two maps agree.
pub record Inv (d : Driver) : Type 0 where
  pub free_above : (j : ℤ) → d.next_id ≤ℤ j → lookup j d.ports ≡ none
  pub own_id : (j : ℤ) (st : Status) → lookup j d.ports ≡ some st → st.id ≡ j
  pub stopped_with :
      (j : ℤ) → lookup j d.stoppers ≡ Option.map (λ (st : Status). st.spec) (lookup j d.ports)

-- The counter does not wrap around.
abbrev pub HasRoom : Driver → Type 0
HasRoom d = d.next_id ≢ pos max_int

pub next_int-above : (n j : ℤ) → n ≢ pos max_int → next_int n ≤ℤ j → (n ≤ℤ j) × (eq_ℤ n j ≡ false)
unfolding next_int ◌+ℤ◌
next_int-above n j room h = ground (arith, eq_ℤ_iff n (pos max_int))

pub new_driver-Inv : Inv new_driver
unfolding lookup
new_driver-Inv = record {
  free_above = λ j h. refl;
  own_id = λ j st h. absurd (ground arith);
  stopped_with = λ j. refl;
}

commit-Inv : (spec : Spec) (d : Driver) → HasRoom d → Inv d → Inv (commit spec d).0
unfolding commit
commit-Inv spec d room v = record {
  free_above = λ j h.
      let (above, other) = next_int-above d.next_id j room h in
      rw (lookup-store, other) (v.free_above j above);
  own_id = λ j st h. ground (
    arith,
    lookup-store d.next_id j (record { id = d.next_id; spec = spec }) d.ports,
    v.own_id j st,
    eq_ℤ_iff d.next_id j,
  );
  stopped_with = λ j. ground (
    arith,
    lookup-store d.next_id j (record { id = d.next_id; spec = spec }) d.ports,
    lookup-store d.next_id j spec d.stoppers,
    v.stopped_with j,
  );
}

remove_port-Inv :
    (stopping : Stopping) (id : ℤ) (d : Driver) → Inv d → Inv (remove_port stopping id d).0
unfolding remove_port
remove_port-Inv stopping id d v = elim (Option-cases (lookup id d.stoppers)) [
  | inl absent ↦ rw (absent, remove_port) v
  | inr (routine, found) ↦
      rw (found, remove_port)
        (record {
          free_above = λ j h. rw lookup-delete (ground (arith, v.free_above j));
          own_id = λ j st h. ground (arith, lookup-delete id j d.ports, v.own_id j st);
          stopped_with = λ j.
              ground (
                arith,
                lookup-delete id j d.ports,
                lookup-delete id j d.stoppers,
                v.stopped_with j,
              );
        })
]

-- An addition either commits the specification, or changes nothing.
pub add_port-cases :
    (net : Net) (env : Env) (spec : Spec) (d : Driver)
    → (add_port net env spec d ≡ ((commit spec d).0, ok (commit spec d).1))
      ⊎ ((e : Error) × (add_port net env spec d ≡ (d, err e)))
unfolding add_port
add_port-cases net env spec d =
    elim (Result-cases
      (wrap_err invalid (validate_port_spec net spec d.ports) >> start_routine env spec)) [
        | inl (u, e) ↦ inl (rw (e, finish_add))
        | inr (x, e) ↦ inr (x, rw (e, finish_add))
      ]

abbrev pub manager : Net → Manager Driver Env Stopping Error StopError
manager net = record {
  add = add_port net;
  remove = remove_port;
  list = list_ports;
  ports = λ d. d.ports;
}

add_port-Inv :
    (net : Net) (env : Env) (spec : Spec) (d : Driver)
    → Inv d
    → HasRoom d
    → Inv (add_port net env spec d).0
add_port-Inv net env spec d v room = elim (add_port-cases net env spec d) [
  | inl done ↦ rw done (commit-Inv spec d room v)
  | inr (e, failed) ↦ rw failed v
]

-- A success is the commit.
add_port-ok :
    (net : Net) (env : Env) (spec : Spec) (d : Driver) (st : Status)
    → (add_port net env spec d).1 ≡ ok st
    → (add_port net env spec d ≡ ((commit spec d).0, ok (commit spec d).1))
      × ((commit spec d).1 ≡ st)
add_port-ok net env spec d st h = elim (add_port-cases net env spec d) [
  | inl done ↦ (done, ground arith)
  | inr (e, failed) ↦ absurd (ground arith)
]

add_port-lookup :
    (net : Net) (env : Env) (spec : Spec) (d : Driver) (st : Status) (j : ℤ)
    → (add_port net env spec d).1 ≡ ok st
    → lookup j (add_port net env spec d).0.ports
      ≡ (if eq_ℤ st.id j then some st else lookup j d.ports)
add_port-lookup net env spec d st j h =
    let (done, same) = add_port-ok net env spec d st h in
    rw (done, ← same) (unfold commit in lookup-store d.next_id j (commit spec d).1 d.ports)

remove_port-lookup :
    (stopping : Stopping) (id j : ℤ) (d : Driver)
    → (remove_port stopping id d).1 ≡ ok tt
    → lookup j (remove_port stopping id d).0.ports ≡ (if eq_ℤ id j then none else lookup j d.ports)
unfolding remove_port
remove_port-lookup stopping id j d h = ground (arith, lookup-delete id j d.ports)

-- The builtin driver is a port manager: while the counter does not wrap around, an addition that
-- succeeds adds exactly one entry, at a new ID and for the address asked for, one that fails
-- changes no entry, and a removal that succeeds drops exactly one; IDs at or above the counter
-- stay free, entries stand under their own IDs, and each has its stopper.
pub manager-laws : (net : Net) → ManagerLaws (manager net) Inv (λ env spec d. HasRoom d)
manager-laws net = record {
  add-Inv = add_port-Inv net;
  remove-Inv = remove_port-Inv;
  add_fresh = λ env spec d st v room h.
      let (done, same) = add_port-ok net env spec d st h in
      rw (← same) (unfold commit in v.free_above d.next_id (omega arith));
  add_address = λ env spec d st h.
      let (done, same) = add_port-ok net env spec d st h in
      rw (← same) (unfold commit in (refl, refl, refl));
  add_lookup = add_port-lookup net;
  add_failed = λ env spec d e v h j. ground (arith, add_port-cases net env spec d);
  remove_lookup = remove_port-lookup;
}

-- An addition by the builtin driver that succeeds, while the counter does not wrap around, stores
-- the status it returns at an ID that was free, for the address asked for; every other entry is
-- as before, and the invariant is kept.
pub builtin_add :
    (net : Net) (env : Env) (spec : Spec) (d : Driver) (st : Status) (j : ℤ)
    → Inv d
    → HasRoom d
    → (add_port net env spec d).1 ≡ ok st
    → (lookup st.id d.ports ≡ none)
      × (st.spec ≡ spec)
      × (lookup j (add_port net env spec d).0.ports
          ≡ (if eq_ℤ st.id j then some st else lookup j d.ports))
      × Inv (add_port net env spec d).0
builtin_add net env spec d st j v room h =
    let (done, same) = add_port-ok net env spec d st h in
    (
      (manager-laws net).add_fresh env spec d st v room h,
      rw (← same) (unfold commit in refl),
      add_port-lookup net env spec d st j h,
      add_port-Inv net env spec d v room,
    )

-- An addition by the builtin driver that fails leaves the driver as it was.
pub builtin_add_failed :
    (net : Net) (env : Env) (spec : Spec) (d : Driver) (e : Error)
    → (add_port net env spec d).1 ≡ err e
    → (add_port net env spec d).0 ≡ d
builtin_add_failed net env spec d e h = ground (arith, add_port-cases net env spec d)

-- A removal by the builtin driver drops the entry of the ID and no other, however the stopping of
-- the routine went, and keeps the invariant.
pub builtin_remove :
    (stopping : Stopping) (id j : ℤ) (d : Driver)
    → Inv d
    → (lookup j (remove_port stopping id d).0.ports
        ≡ (if eq_ℤ id j then none else lookup j d.ports))
      × Inv (remove_port stopping id d).0
unfolding remove_port
builtin_remove stopping id j d v = (
  ground (
    arith,
    lookup-delete id j d.ports,
    v.stopped_with id,
    eq_ℤ_iff id j,
    Option-cases (lookup id d.stoppers),
    Option-cases (lookup id d.ports),
  ),
  remove_port-Inv stopping id d v,
)

-- A port that is there is removed without an error if its routine ends without one.
pub remove_port-stopped :
    (id : ℤ) (st : Status) (d : Driver)
    → Inv d
    → lookup id d.ports ≡ some st
    → (remove_port (stopped none) id d).1 ≡ ok tt
unfolding remove_port routine_stop
remove_port-stopped id st d v h =
    let there : lookup id d.stoppers ≡ some st.spec = rw (v.stopped_with id, h) refl in
    rw (there, remove_port) refl
