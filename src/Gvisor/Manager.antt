-- ===== src/Gvisor/Manager.antt =====
-- The gvisor-tap-vsock driver keeps the promises of `port.Manager`.
use rootlesskit.Base.{
  if◌then◌else◌, Bool-cases, Option-cases, ℤ, pos, ◌≤ℤ◌, eq_ℤ, eq_ℤ_iff, ◌≡◌, refl, ◌≢◌, ◌⊎◌, inl,
  inr, none, some, arith, ok, err, Result-cases,
}
use rootlesskit.Port.Validate.Accepts.{SameAddress}
use rootlesskit.Text.{Bytes}
use rootlesskit.Text.Search.{has_prefix}
use rootlesskit.Text.Decimal.{max_int}
use rootlesskit.Port.{Spec, Status}
use rootlesskit.Port.Table.{lookup, delete, Same, lookup-store, lookup-delete, delete-store_fresh}
use rootlesskit.Port.Manager.{Manager, ManagerLaws}
use rootlesskit.Builtin.Manager.{next_int-above}
use rootlesskit.Gvisor.{
  Driver, Error, Transport, tcp, udp, call_mux, address, tracked, untracked, with_child_ip,
  register, expose_request, unexpose_request, finish_add, add_checked, add_port, list_ports,
  remove_port, is_supported, transport_of, expose, unexpose,
}

-- IDs at or above the counter are free, and entries stand under their own IDs.
pub record Inv (d : Driver) : Type 0 where
  pub free_above : (j : ℤ) → d.port_seq ≤ℤ j → lookup j d.ports ≡ none
  pub own_id : (j : ℤ) (st : Status) → lookup j d.ports ≡ some st → st.id ≡ j

abbrev pub HasRoom : Driver → Type 0
HasRoom d = d.port_seq ≢ pos max_int

-- The prefix that AddPort and RemovePort put before the address of a UDP port is gone again.
untracked-tracked : (t : Transport) (a : Bytes) → untracked t (tracked t a) ≡ a
unfolding untracked has_prefix
untracked-tracked tcp a = refl
untracked-tracked udp a = refl

-- The table after an addition that was exposed, and after one that was not.
pub add_checked-cases :
    (spec : Spec) (d : Driver)
    → ((call_mux d.services_mux (expose_request spec) ≡ ok tt)
        × (add_checked spec d ≡ (register spec d, ok (record { id = d.port_seq; spec = spec }))))
      ⊎ ((e : Error) × (call_mux d.services_mux (expose_request spec) ≡ err e)
          × (add_checked spec d ≡ (
            record (register spec d) { ports = delete d.port_seq (register spec d).ports },
            err e,
          )))
unfolding add_checked
add_checked-cases spec d = elim (Result-cases (call_mux d.services_mux (expose_request spec))) [
  | inl (u, e) ↦ inl (e, rw (e, finish_add))
  | inr (x, e) ↦ inr (x, e, rw (e, finish_add))
]

register-Inv : (spec : Spec) (d : Driver) → HasRoom d → Inv d → Inv (register spec d)
unfolding register
register-Inv spec d room v = record {
  free_above = λ j h.
      let (above, other) = next_int-above d.port_seq j room h in
      rw (lookup-store, other) (v.free_above j above);
  own_id = λ j st h. ground (
    arith,
    lookup-store d.port_seq j (record { id = d.port_seq; spec = spec }) d.ports,
    v.own_id j st,
    eq_ℤ_iff d.port_seq j,
  );
}

delete-Inv : (id : ℤ) (d : Driver) → Inv d → Inv (record d { ports = delete id d.ports })
delete-Inv id d v = record {
  free_above = λ j h. rw lookup-delete (ground (arith, v.free_above j));
  own_id = λ j st h. ground (arith, lookup-delete id j d.ports, v.own_id j st);
}

add_checked-Inv : (spec : Spec) (d : Driver) → HasRoom d → Inv d → Inv (add_checked spec d).0
add_checked-Inv spec d room v = elim (add_checked-cases spec d) [
  | inl (served, e) ↦ rw e (register-Inv spec d room v)
  | inr (x, failed, e) ↦ rw e (delete-Inv d.port_seq (register spec d) (register-Inv spec d room v))
]

add_port-Inv : (spec : Spec) (d : Driver) → Inv d → HasRoom d → Inv (add_port spec d).0
unfolding add_port
add_port-Inv spec d v room = elim (Bool-cases (is_supported spec.proto)) [
  | inl supported ↦ rw supported (add_checked-Inv (with_child_ip d spec) d room v)
  | inr unknown ↦ rw unknown v
]

remove_port-Inv : (id : ℤ) (d : Driver) → Inv d → Inv (remove_port id d).0
unfolding remove_port
remove_port-Inv id d v = elim (Option-cases (lookup id d.ports)) [
  | inl absent ↦ rw (absent, remove_port) v
  | inr (st, found) ↦ rw (found, remove_port) (delete-Inv id d v)
]

-- A success: the port was exposed and the entry stored under the counter.
pub add_port-ok :
    (spec : Spec) (d : Driver) (st : Status)
    → (add_port spec d).1 ≡ ok st
    → (st ≡ record { id = d.port_seq; spec = with_child_ip d spec })
      × (call_mux d.services_mux (expose_request (with_child_ip d spec)) ≡ ok tt)
      × ((add_port spec d).0 ≡ register (with_child_ip d spec) d)
unfolding add_port
add_port-ok spec d st h = ground (arith, add_checked-cases (with_child_ip d spec) d)

-- A failure: the entry that was stored before the port was to be exposed is gone again.
add_port-failed :
    (spec : Spec) (d : Driver) (e : Error)
    → Inv d
    → (add_port spec d).1 ≡ err e
    → Same (add_port spec d).0.ports d.ports
unfolding add_port
add_port-failed spec d e v h j =
    ground
      (arith, add_checked-cases (with_child_ip d spec) d, registered (with_child_ip d spec) d v j)
  where
    registered :
        (s : Spec) (g : Driver)
        → Inv g
        → (i : ℤ) → lookup i (delete g.port_seq (register s g).ports) ≡ lookup i g.ports
    registered s g w i =
        unfold register in
        delete-store_fresh g.port_seq (record { id = g.port_seq; spec = s }) g.ports
          (w.free_above g.port_seq (omega arith)) i

remove_port-lookup :
    (id j : ℤ) (d : Driver)
    → (remove_port id d).2 ≡ ok tt
    → lookup j (remove_port id d).0.ports ≡ (if eq_ℤ id j then none else lookup j d.ports)
unfolding remove_port
remove_port-lookup id j d h = ground (arith, lookup-delete id j d.ports)

abbrev pub manager : Manager Driver (Unit {0}) (Unit {0}) Error Error
manager = record {
  add = λ _ spec d. add_port spec d;
  remove = λ _ id d. ((remove_port id d).0, (remove_port id d).2);
  list = list_ports;
  ports = λ d. d.ports;
}

add_port-address : (spec : Spec) (d : Driver) → SameAddress (with_child_ip d spec) spec
add_port-address spec d = ground arith

pub manager-laws : ManagerLaws manager Inv (λ _ spec d. HasRoom d)
manager-laws = record {
  add-Inv = λ _. add_port-Inv;
  remove-Inv = λ _. remove_port-Inv;
  add_fresh = λ _ spec d st v room h.
      rw (add_port-ok spec d st h).0 (v.free_above d.port_seq (omega arith));
  add_address = λ _ spec d st h. rw (add_port-ok spec d st h).0 (add_port-address spec d);
  add_lookup = λ _ spec d st j h.
      let (same, served, after) = add_port-ok spec d st h in
      rw (after, same) (unfold register in lookup-store d.port_seq j _ d.ports);
  add_failed = λ _. add_port-failed;
  remove_lookup = λ _. remove_port-lookup;
}

-- The requests of AddPort and RemovePort name the same forward: the transport of the protocol and
-- the address of the parent, with no trace of the prefix that marks UDP.
pub requests_match :
    (spec : Spec)
    → (expose_request spec
        ≡ expose
            (transport_of spec.proto)
            (address spec.parent_ip spec.parent_port)
            (address spec.child_ip spec.child_port))
      × (unexpose_request spec
          ≡ unexpose (transport_of spec.proto) (address spec.parent_ip spec.parent_port))
unfolding expose_request unexpose_request
requests_match spec =
    rw (untracked-tracked (transport_of spec.proto) (address spec.parent_ip spec.parent_port))
      (refl, refl)

-- An addition by the gvisor-tap-vsock driver that succeeds, while the counter does not wrap
-- around, was exposed by the service, and stores the status it returns at an ID that was free,
-- for the address asked for; every other entry is as before, and the invariant is kept.
pub gvisor_add :
    (spec : Spec) (d : Driver) (st : Status) (j : ℤ)
    → Inv d
    → HasRoom d
    → (add_port spec d).1 ≡ ok st
    → (lookup st.id d.ports ≡ none)
      × SameAddress st.spec spec
      × (call_mux d.services_mux (expose_request (with_child_ip d spec)) ≡ ok tt)
      × (lookup j (add_port spec d).0.ports ≡ (if eq_ℤ st.id j then some st else lookup j d.ports))
      × Inv (add_port spec d).0
gvisor_add spec d st j v room h = (
  manager-laws.add_fresh tt spec d st v room h,
  manager-laws.add_address tt spec d st h,
  (add_port-ok spec d st h).1,
  manager-laws.add_lookup tt spec d st j h,
  add_port-Inv spec d v room,
)

-- An addition by the gvisor-tap-vsock driver that fails, in a driver that meets the invariant,
-- leaves every entry as it was: the one that was stored before the call of the service is gone.
pub gvisor_add_failed :
    (spec : Spec) (d : Driver) (e : Error)
    → Inv d
    → (add_port spec d).1 ≡ err e
    → Same (add_port spec d).0.ports d.ports
gvisor_add_failed = add_port-failed
