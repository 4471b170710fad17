-- ===== src/SubId/Maps.antt =====
-- `newugidmapArgsFromSubIDRanges` of pkg/parent/parent.go.
use rootlesskit.Base.{
  All, ltb, leb, if◌then◌else◌, ℤ, pos, negsuc, pos_part, leb_ℤ, ltb_ℤ, ◌+ℤ◌, ℕ, suc, ◌+◌, ◌*◌, ◌≤◌,
  ◌≡◌, ◌&&◌, List, [], ◌∷◌, arith,
}
use rootlesskit.Text.{Bytes, codes}
use rootlesskit.Text.Decimal.{itoa, max_int}
use rootlesskit.SubId.{SubIdRange}

-- A row of the map: IDs inside from `inner`, outside from `outer`, and how many.
pub record Row : Type 0 where
  pub inner : ℤ
  pub outer : ℤ
  pub size : ℤ

-- A sum of two `int`s, on 64 bits.
wrap_int : ℤ → ℤ
wrap_int (pos n) = if leb n max_int then pos n else pos n +ℤ negsuc (2 * max_int + 1)
wrap_int (negsuc n) = if leb n max_int then negsuc n else negsuc n +ℤ pos (2 * max_int + 2)

unfoldable pub add_int : ℤ → ℤ → ℤ
unfolding wrap_int
add_int a b = wrap_int (a +ℤ b)

-- The loop over the ranges, from `uidMapLast`.
unfoldable pub map_rows : ℤ → List SubIdRange → List Row
map_rows last [] = []
map_rows last (f ∷ fs) =
    record { inner = last; outer = f.start; size = f.size } ∷ map_rows (add_int last f.size) fs

row_args : List Row → List Bytes
row_args [] = []
row_args (r ∷ rs) = itoa r.inner ∷ itoa r.outer ∷ itoa r.size ∷ row_args rs

-- The arguments of newuidmap or newgidmap, for the user's own ID and the ranges.
unfoldable pub map_args : Bytes → List SubIdRange → List Bytes
unfolding row_args
map_args id ranges = codes "0" ∷ id ∷ codes "1" ∷ row_args (map_rows (pos 1) ranges)

-- `newugidmapArgsFromSubIDRanges`.
unfoldable pub newugidmap_args :
    Bytes → Bytes → List SubIdRange → List SubIdRange → List Bytes × List Bytes
newugidmap_args uid gid subuid subgid = (map_args uid subuid, map_args gid subgid)

-- How many rows map the inner ID `n`.
unfoldable pub mapped_by : ℕ → List Row → ℕ
mapped_by n [] = 0
mapped_by n (r ∷ rs) =
    let rest = mapped_by n rs in
    if leb_ℤ r.inner (pos n) && ltb_ℤ (pos n) (r.inner +ℤ r.size) then suc rest else rest

-- The ranges have sizes, and the sum of the sizes.
abbrev pub IsSized : SubIdRange → Type 0
IsSized r = r.size ≡ pos (pos_part r.size)

abbrev pub total : List SubIdRange → ℕ
total [] = 0
total (r ∷ rs) = pos_part r.size + total rs

add_int-pos : (a b : ℕ) → a + b ≤ max_int → add_int (pos a) (pos b) ≡ pos (a + b)
unfolding add_int ◌+ℤ◌
add_int-pos a b h = ground arith

-- From `last`, the rows made of the ranges map each inner ID from `last` to the end of the map
-- exactly once, and no other, if no range has a negative size and the end is an `int`.
pub map_rows-tile :
    (last n : ℕ) (ranges : List SubIdRange)
    → All IsSized ranges
    → last + total ranges ≤ max_int
    → mapped_by n (map_rows (pos last) ranges)
      ≡ (if leb last n && ltb n (last + total ranges) then 1 else 0)
unfolding mapped_by map_rows ◌+ℤ◌
map_rows-tile last n [] sized fits = ground arith
map_rows-tile last n (r ∷ rs) (sized, rest) fits =
    let e = map_rows-tile (last + pos_part r.size) n rs rest (omega arith) in
    rw (sized, add_int-pos last (pos_part r.size) (omega arith)) (ground arith)
