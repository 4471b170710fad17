-- ===== src/Builtin/Concurrent/Calls.antt =====
-- What the steps of `AddPort` keep.
use rootlesskit.Base.{
  ◌==◌, Bool-cases, ℤ, eq_ℤ, eq_ℤ_iff, ℕ, ◌≡◌, sym, ap, ◌∙◌, subst, ◌⊎◌, inl, inr, true, false,
  none, some, arith,
}
use rootlesskit.Text.{str_eq_iff}
use rootlesskit.Port.{Spec, Status}
use rootlesskit.Port.Table.{lookup, lookup-store}
use rootlesskit.Port.Validate.{is_conflict}
use rootlesskit.Builtin.{Driver, commit}
use rootlesskit.Builtin.Concurrent.{
  idle, validated, started, returned, System, at_call, open_socket, commit_call,
}

-- What the sockets and the IDs that are in the table have to do with each other. A listener may have
-- been closed by its routine.
pub record Inv (s : System) : Type 0 where
  pub exclusive :
      (i j : ℕ) (a b : Spec)
      → s.socket i ≡ some a
      → s.socket j ≡ some b
      → is_conflict a b ≡ true
      → i ≡ j
  pub idle_socket : (i : ℕ) → s.call i ≡ idle → s.socket i ≡ none
  pub validated_socket : (i : ℕ) (a : Spec) → s.call i ≡ validated a → s.socket i ≡ none
  pub started_socket : (i : ℕ) (a b : Spec) → s.call i ≡ started a → s.socket i ≡ some b → b ≡ a
  pub port_socket :
      (id : ℤ) (st : Status) (b : Spec)
      → lookup id s.driver.ports ≡ some st
      → s.socket (s.routine id) ≡ some b
      → b ≡ st.spec
  pub port_returned :
      (id : ℤ) (st : Status) → lookup id s.driver.ports ≡ some st → s.call (s.routine id) ≡ returned
  pub one_id :
      (id k : ℤ) (st u : Status)
      → lookup id s.driver.ports ≡ some st
      → lookup k s.driver.ports ≡ some u
      → s.routine id ≡ s.routine k
      → id ≡ k

is_conflict-sym : (a b : Spec) → is_conflict a b ≡ true → is_conflict b a ≡ true
unfolding is_conflict
is_conflict-sym a b h = ground (
  arith,
  str_eq_iff a.proto b.proto,
  str_eq_iff b.proto a.proto,
  str_eq_iff a.parent_ip b.parent_ip,
  str_eq_iff b.parent_ip a.parent_ip,
  eq_ℤ_iff a.parent_port b.parent_port,
  eq_ℤ_iff b.parent_port a.parent_port,
)

pub validate-Inv :
    (s : System) (i : ℕ) (spec : Spec)
    → Inv s
    → s.call i ≡ idle
    → Inv (record s { call = at_call i (validated spec) s })
validate-Inv s i spec v at = record {
  exclusive = v.exclusive;
  idle_socket = λ j h. ground (arith, v.idle_socket j);
  validated_socket = λ j a h. ground (arith, v.validated_socket j a, v.idle_socket i at);
  started_socket = λ j a b h g. ground (arith, v.started_socket j a b);
  port_socket = v.port_socket;
  port_returned = λ id st h. ground (arith, v.port_returned id st h, at);
  one_id = v.one_id;
}

pub gives_up-Inv :
    (s : System) (i : ℕ)
    → Inv s
    → s.socket i ≡ none
    → Inv (record s { call = at_call i returned s })
gives_up-Inv s i v at = record {
  exclusive = v.exclusive;
  idle_socket = λ j h. ground (arith, v.idle_socket j);
  validated_socket = λ j a h. ground (arith, v.validated_socket j a);
  started_socket = λ j a b h g. ground (arith, v.started_socket j a b);
  port_socket = v.port_socket;
  port_returned = λ id st h. ground (arith, v.port_returned id st h);
  one_id = v.one_id;
}

pub listen-Inv :
    (s : System) (i : ℕ) (spec : Spec)
    → Inv s
    → s.call i ≡ validated spec
    → ((j : ℕ) (other : Spec) → s.socket j ≡ some other → is_conflict other spec ≡ false)
    → Inv (open_socket i spec s)
unfolding open_socket
listen-Inv s i spec v at free = record {
  exclusive = λ j k a b h g c. elim (Bool-cases (i == j)) [
    | inl e ↦ elim (Bool-cases (i == k)) [
      | inl f ↦ ground arith
      | inr f ↦
          let new : a ≡ spec = ground (arith, h, e) in
          let other : is_conflict b spec ≡ true =
            subst (λ x. is_conflict b x ≡ true) new (is_conflict-sym a b c) in
          absurd (ground (arith, free k b, g, f, other))
    ]
    | inr e ↦ elim (Bool-cases (i == k)) [
      | inl f ↦
          let new : b ≡ spec = ground (arith, g, f) in
          let other : is_conflict a spec ≡ true = subst (λ x. is_conflict a x ≡ true) new c in
          absurd (ground (arith, free j a, h, e, other))
      | inr f ↦ v.exclusive j k a b (ground (arith, h, e)) (ground (arith, g, f)) c
    ]
  ];
  idle_socket = λ j h. ground (arith, v.idle_socket j);
  validated_socket = λ j a h. ground (arith, v.validated_socket j a);
  started_socket = λ j a b h g. ground (arith, v.started_socket j a b);
  port_socket =
      λ id st b h g. ground (arith, v.port_socket id st b h, v.port_returned id st h, at, g);
  port_returned = λ id st h. ground (arith, v.port_returned id st h, at);
  one_id = v.one_id;
}

-- After the commit, an entry is the new one or was there before.
port_after :
    (spec : Spec) (d : Driver) (id : ℤ) (st : Status)
    → lookup id (commit spec d).0.ports ≡ some st
    → ((eq_ℤ d.next_id id ≡ true) × (st.spec ≡ spec))
      ⊎ ((eq_ℤ d.next_id id ≡ false) × (lookup id d.ports ≡ some st))
unfolding commit
port_after spec d id st h =
    let new : Status = record { id = d.next_id; spec = spec } in
    let look = lookup-store d.next_id id new d.ports in
    elim (Bool-cases (eq_ℤ d.next_id id)) [
      | inl e ↦
          let same : new ≡ st = ground (arith, look, e, h) in
          inl (e, ap (λ (x : Status). x.spec) (sym same))
      | inr e ↦ inr (e, ground (arith, look, e, h))
    ]

pub commit-Inv :
    (s : System) (i : ℕ) (spec : Spec)
    → Inv s
    → s.call i ≡ started spec
    → Inv (commit_call i spec s)
unfolding commit_call
commit-Inv s i spec v at = record {
  exclusive = v.exclusive;
  idle_socket = λ j h. ground (arith, v.idle_socket j);
  validated_socket = λ j a h. ground (arith, v.validated_socket j a);
  started_socket = λ j a b h g. ground (arith, v.started_socket j a b);
  port_socket = λ id st b h g. elim (port_after spec s.driver id st h) [
    | inl (e, same) ↦ v.started_socket i spec b at (ground (arith, e, g)) ∙ sym same
    | inr (e, old) ↦ v.port_socket id st b old (ground (arith, e, g))
  ];
  port_returned = λ id st h. elim (port_after spec s.driver id st h) [
    | inl (e, same) ↦ ground (arith, e)
    | inr (e, old) ↦ ground (arith, e, v.port_returned id st old)
  ];
  one_id = λ id k st u h g e. elim (port_after spec s.driver id st h) [
    | inl (f, same) ↦ elim (port_after spec s.driver k u g) [
      | inl (x, alike) ↦
          ground (arith, eq_ℤ_iff s.driver.next_id id, eq_ℤ_iff s.driver.next_id k, f, x)
      | inr (x, old) ↦
          let taken : i ≡ s.routine k = ground (arith, e, f, x) in
          absurd (ground (arith, ap s.call taken, at, v.port_returned k u old))
    ]
    | inr (f, old) ↦ elim (port_after spec s.driver k u g) [
      | inl (x, alike) ↦
          let taken : i ≡ s.routine id = ground (arith, e, f, x) in
          absurd (ground (arith, ap s.call taken, at, v.port_returned id st old))
      | inr (x, older) ↦ v.one_id id k st u old older (ground (arith, e, f, x))
    ]
  ];
}
