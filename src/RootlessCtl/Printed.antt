-- ===== src/RootlessCtl/Printed.antt =====
-- What the commands print, and what is then true of the ports.
use rootlesskit.Base.{
  All, ℤ, eq_ℤ_iff, ℕ, suc, ◌≡◌, refl, sym, ap, ◌∙◌, subst, ◌⊎◌, inl, inr, none, some, List, [],
  ◌∷◌, arith, ok, err, Result-cases,
}
use rootlesskit.Port.{Spec, Status}
use rootlesskit.Port.Table.{lookup}
use rootlesskit.Port.Manager.{Manager, ManagerLaws}
use rootlesskit.RootlessCtl.{
  Error, Context, line, add_all, remove_all, add_ports_action, checked_specs, remove_failed, Net,
  Bytes, Token,
}

module _ {S AddEnv RemoveEnv A R : Type 0} {m : Manager S AddEnv RemoveEnv A R} {Inv : S → Type 0}
    {Fair : AddEnv → Spec → S → Type 0} (laws : ManagerLaws m Inv Fair) (c : Context) where
  -- What the manager needs of the system for each addition in turn.
  abbrev pub FairAll : (ℕ → AddEnv) → List Spec → S → Type 0
  FairAll env [] s = Unit
  FairAll env (sp ∷ rest) s =
      Fair (env 0) sp s × FairAll (λ n. env (suc n)) rest (m.add (env 0) sp s).0

  -- One addition keeps the entries that are there.
  add-keeps :
      (env : AddEnv) (sp : Spec) (s : S) (j : ℤ) (u : Status)
      → Inv s
      → Fair env sp s
      → lookup j (m.ports s) ≡ some u
      → lookup j (m.ports (m.add env sp s).0) ≡ some u
  add-keeps env sp s j u v fair h = elim (Result-cases (m.add env sp s).1) [
    | inl (st, e) ↦ ground (
      arith,
      h,
      laws.add_lookup env sp s st j e,
      laws.add_fresh env sp s st v fair e,
      eq_ℤ_iff st.id j,
    )
    | inr (x, e) ↦ laws.add_failed env sp s x v e j ∙ h
  ]

  add_all-keeps :
      (env : ℕ → AddEnv) (specs : List Spec) (s : S) (j : ℤ) (u : Status)
      → Inv s
      → FairAll env specs s
      → lookup j (m.ports s) ≡ some u
      → lookup j (m.ports (add_all m c env specs s).0) ≡ some u
  unfolding add_all
  add_all-keeps env [] s j u v fair h = h
  add_all-keeps env (sp ∷ rest) s j u v fair h =
      let s' = (m.add (env 0) sp s).0 in
      let kept = add-keeps (env 0) sp s j u v fair.0 h in
      let v' = laws.add-Inv (env 0) sp s v fair.0 in
      elim (Result-cases (m.add (env 0) sp s).1) [
        | inr (x, e) ↦ rw (e, add_all) kept
        | inl (st, e) ↦ elim (Result-cases (line {A = A} {R = R} c st)) [
          | inr (x, f) ↦ rw (e, f, add_all) kept
          | inl (l, f) ↦
              rw (e, f, add_all) (add_all-keeps (λ n. env (suc n)) rest s' j u v' fair.1 kept)
        ]
      ]

  -- A printed line is that of a port that stands in the table.
  abbrev pub Stands : S → Status × Bytes → Type 0
  Stands s p = (line {A = A} {R = R} c p.0 ≡ ok p.1) × (lookup p.0.id (m.ports s) ≡ some p.0)

  add_all-Stands :
      (env : ℕ → AddEnv) (specs : List Spec) (s : S)
      → Inv s
      → FairAll env specs s
      → All (Stands (add_all m c env specs s).0) (add_all m c env specs s).1
  unfolding add_all
  add_all-Stands env [] s v fair = tt
  add_all-Stands env (sp ∷ rest) s v fair =
      let s' = (m.add (env 0) sp s).0 in
      let v' = laws.add-Inv (env 0) sp s v fair.0 in
      elim (Result-cases (m.add (env 0) sp s).1) [
        | inr (x, e) ↦ rw (e, add_all) tt
        | inl (st, e) ↦ elim (Result-cases (line {A = A} {R = R} c st)) [
          | inr (x, f) ↦ rw (e, f, add_all) tt
          | inl (l, f) ↦
              let there : lookup st.id (m.ports s') ≡ some st =
                ground (arith, laws.add_lookup (env 0) sp s st st.id e, eq_ℤ_iff st.id st.id) in
              rw (e, f, add_all)
                (
                  (f, add_all-keeps (λ n. env (suc n)) rest s' st.id st v' fair.1 there),
                  add_all-Stands (λ n. env (suc n)) rest s' v' fair.1,
                )
        ]
      ]

  -- Where rootlessctl adds ports over a manager that keeps its laws, in a state that meets its
  -- invariant and with what it needs in each addition, every line that was printed is that of a
  -- port which stands in the table at the end, whatever failed later; and where an argument does
  -- not parse or there is no connection, nothing is printed and no port is added.
  pub added-Stands :
      (net : Net) (scan : Bytes → List Token) (env : ℕ → AddEnv) (args : List Bytes) (s : S)
      → Inv s
      → ((specs : List Spec) → checked_specs m c net scan args ≡ ok specs → FairAll env specs s)
      → All
          (Stands (add_ports_action m c net scan env args s).0)
          (add_ports_action m c net scan env args s).1
        × (((e : Error A R) × (checked_specs m c net scan args ≡ err e)
              × (add_ports_action m c net scan env args s ≡ (s, [], err e)))
            ⊎ ((specs : List Spec) × (checked_specs m c net scan args ≡ ok specs)))
  unfolding add_ports_action
  added-Stands net scan env args s v fair = elim (Result-cases (checked_specs m c net scan args)) [
    | inl (specs, e) ↦
        (rw (e, add_ports_action) (add_all-Stands env specs s v (fair specs e)), inr (specs, e))
    | inr (x, e) ↦ (rw (e, add_ports_action) tt, inl (x, e, rw (e, add_ports_action) refl))
  ]

  -- One removal that succeeds leaves absent what is absent.
  remove-absent :
      (env : RemoveEnv) (id j : ℤ) (s : S)
      → (m.remove env id s).1 ≡ ok tt
      → lookup j (m.ports s) ≡ none
      → lookup j (m.ports (m.remove env id s).0) ≡ none
  remove-absent env id j s e h = ground (arith, laws.remove_lookup env id j s e, h)

  -- A removal that succeeds goes on to the rest.
  remove_all-next :
      (env : ℕ → RemoveEnv) (id : ℤ) (rest : List ℤ) (s : S)
      → (m.remove (env 0) id s).1 ≡ ok tt
      → let r = remove_all m c (λ n. env (suc n)) rest (m.remove (env 0) id s).0 in
        remove_all m c env (id ∷ rest) s ≡ (r.0, id ∷ r.1, r.2)
  unfolding remove_all
  remove_all-next env id rest s e = rw (e, remove_all) refl

  removed-ok :
      (env : ℕ → RemoveEnv) (id : ℤ) (rest : List ℤ) (s : S)
      → (remove_all m c env (id ∷ rest) s).2 ≡ ok tt
      → (m.remove (env 0) id s).1 ≡ ok tt
  unfolding remove_all
  removed-ok env id rest s out = elim (Result-cases (m.remove (env 0) id s).1) [
    | inl (u, e) ↦ e
    | inr (x, e) ↦ absurd (ground (arith, failed x e, out))
  ]
    where
      failed :
          (x : R)
          → (m.remove (env 0) id s).1 ≡ err x
          → (remove_all m c env (id ∷ rest) s).2 ≡ err (remove_failed x)
      failed x e = rw (e, remove_all) refl

  remove_all-absent :
      (env : ℕ → RemoveEnv) (ids : List ℤ) (s : S) (j : ℤ)
      → (remove_all m c env ids s).2 ≡ ok tt
      → lookup j (m.ports s) ≡ none
      → lookup j (m.ports (remove_all m c env ids s).0) ≡ none
  unfolding remove_all
  remove_all-absent env [] s j out h = h
  remove_all-absent env (id ∷ rest) s j out h =
      let e = removed-ok env id rest s out in
      let next = remove_all-next env id rest s e in
      let s' = (m.remove (env 0) id s).0 in
      let out' : (remove_all m c (λ n. env (suc n)) rest s').2 ≡ ok tt =
        sym (ap (λ x. x.2) next) ∙ out in
      ap (λ x. lookup j (m.ports x.0)) next
      ∙ remove_all-absent (λ n. env (suc n)) rest s' j out' (remove-absent (env 0) id j s e h)

  -- Where rootlessctl removes ports by their IDs over a manager that keeps its laws and reports
  -- no error, every ID that it was given has been printed, and no port stands under it.
  pub removed-gone :
      (env : ℕ → RemoveEnv) (ids : List ℤ) (s : S)
      → (remove_all m c env ids s).2 ≡ ok tt
      → ((remove_all m c env ids s).1 ≡ ids)
        × All (λ id. lookup id (m.ports (remove_all m c env ids s).0) ≡ none) ids
  unfolding remove_all
  removed-gone env [] s out = (refl, tt)
  removed-gone env (id ∷ rest) s out =
      let e = removed-ok env id rest s out in
      let next = remove_all-next env id rest s e in
      let s' = (m.remove (env 0) id s).0 in
      let out' : (remove_all m c (λ n. env (suc n)) rest s').2 ≡ ok tt =
        sym (ap (λ x. x.2) next) ∙ out in
      let (printed, gone) = removed-gone (λ n. env (suc n)) rest s' out' in
      let now : lookup id (m.ports s') ≡ none =
        ground (arith, laws.remove_lookup (env 0) id id s e, eq_ℤ_iff id id) in
      let last = (remove_all m c env (id ∷ rest) s).0 in
      let same : (remove_all m c (λ n. env (suc n)) rest s').0 ≡ last = sym (ap (λ x. x.0) next) in
      (
        ap (λ x. x.1) next ∙ ap (λ l. id ∷ l) printed,
        subst (λ t. All (λ k. lookup k (m.ports t) ≡ none) (id ∷ rest)) same
            (remove_all-absent (λ n. env (suc n)) rest s' id out' now, gone),
      )
