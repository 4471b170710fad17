-- ===== src/Port/Table.antt =====
-- Go's `map[int]V`, as a list of its entries in the order of a `range`. Statements quantify over
-- every list, so over every order.
use rootlesskit.Base.{
  if◌then◌else◌, ℤ, eq_ℤ, eq_ℤ_iff, ◌≡◌, refl, true, Option, none, some, List, [], ◌∷◌, arith,
}

abbrev pub Table {ℓ} : Type ℓ → Type ℓ
Table V = List (ℤ × V)

module _ {ℓ} {V : Type ℓ} where
  -- `v, ok := m[k]`.
  unfoldable pub lookup : ℤ → Table V → Option V
  lookup k [] = none
  lookup k ((j, v) ∷ m) = if eq_ℤ j k then some v else lookup k m

  -- `m[k] = v`.
  unfoldable pub store : ℤ → V → Table V → Table V
  store k v [] = (k, v) ∷ []
  store k v ((j, w) ∷ m) = if eq_ℤ j k then (k, v) ∷ m else (j, w) ∷ store k v m

  -- `delete(m, k)`.
  unfoldable pub delete : ℤ → Table V → Table V
  delete k [] = []
  delete k ((j, v) ∷ m) = if eq_ℤ j k then delete k m else (j, v) ∷ delete k m

  -- The values, as `for _, v := range m` sees them.
  unfoldable pub values : Table V → List V
  values [] = []
  values ((k, v) ∷ m) = v ∷ values m

  pub lookup-store :
      (k j : ℤ) (v : V) (m : Table V)
      → lookup j (store k v m) ≡ (if eq_ℤ k j then some v else lookup j m)
  unfolding lookup store
  lookup-store k j v [] = refl
  lookup-store k j v ((i, w) ∷ m) =
      ground (arith, eq_ℤ_iff k j, eq_ℤ_iff i k, eq_ℤ_iff i j, lookup-store k j v m)

  pub lookup-delete :
      (k j : ℤ) (m : Table V) → lookup j (delete k m) ≡ (if eq_ℤ k j then none else lookup j m)
  unfolding lookup delete
  lookup-delete k j [] = ground arith
  lookup-delete k j ((i, w) ∷ m) =
      ground (arith, eq_ℤ_iff k j, eq_ℤ_iff i k, eq_ℤ_iff i j, lookup-delete k j m)

  -- Two tables that answer every key alike.
  abbrev pub Same : Table V → Table V → Type ℓ
  Same m n = (j : ℤ) → lookup j m ≡ lookup j n

pub eq_ℤ-refl : (k : ℤ) → eq_ℤ k k ≡ true
eq_ℤ-refl k = (eq_ℤ_iff k k).1 refl

module _ {ℓ} {V : Type ℓ} where
  pub lookup-store_self : (k : ℤ) (v : V) (m : Table V) → lookup k (store k v m) ≡ some v
  lookup-store_self k v m = rw (lookup-store k k v m, eq_ℤ-refl k)

  pub lookup-delete_self : (k : ℤ) (m : Table V) → lookup k (delete k m) ≡ none
  lookup-delete_self k m = rw (lookup-delete k k m, eq_ℤ-refl k)

  -- Dropping an entry that was just added at a fresh key gives the table back.
  pub delete-store_fresh :
      (k : ℤ) (v : V) (m : Table V) → lookup k m ≡ none → Same (delete k (store k v m)) m
  delete-store_fresh k v m fresh j =
      rw (lookup-delete k j (store k v m), lookup-store k j v m) (ground (arith, eq_ℤ_iff k j))
