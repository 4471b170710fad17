-- ===== src/SubId/Unique.antt =====
-- The removal of duplicates.
use rootlesskit.Base.{
  if◌then◌else◌, eq_ℤ, eq_ℤ_iff, ℕ, suc, ◌≡◌, refl, ◌∙◌, Bool, not, ◌&&◌, List, [], ◌∷◌, arith,
}
use rootlesskit.SubId.{SubIdRange}
use rootlesskit.SubId.Dynamic.{is_seen, without_seen, without_duplicates}

same_range : SubIdRange → SubIdRange → Bool
same_range r s = eq_ℤ r.start s.start && eq_ℤ r.size s.size

-- How often a range stands in a list.
unfoldable pub occurrences : SubIdRange → List SubIdRange → ℕ
unfolding same_range
occurrences r [] = 0
occurrences r (s ∷ rs) = let rest = occurrences r rs in if same_range r s then suc rest else rest

without_seen-occurrences :
    (r : SubIdRange) (seen rs : List SubIdRange)
    → occurrences r (without_seen seen rs) ≡ (if is_seen r rs && not (is_seen r seen) then 1 else 0)
unfolding occurrences without_seen is_seen
without_seen-occurrences r seen [] = refl
without_seen-occurrences r seen (s ∷ rs) = ground (
  arith,
  without_seen-occurrences r seen rs,
  without_seen-occurrences r (s ∷ seen) rs,
  eq_ℤ_iff r.start s.start,
  eq_ℤ_iff r.size s.size,
)

-- A range stands once in the list without duplicates if it stood in the list, and else not.
pub without_duplicates-occurrences :
    (r : SubIdRange) (rs : List SubIdRange)
    → occurrences r (without_duplicates rs) ≡ (if is_seen r rs then 1 else 0)
unfolding without_duplicates is_seen
without_duplicates-occurrences r rs = without_seen-occurrences r [] rs ∙ ground arith
