-- ===== src/SubId/Dynamic.antt =====
-- pkg/parent/dynidtools/dynidtools.go. The runs of getsubids are arguments: the lines of what one
-- prints, or its failure. The warnings about unknown fields are left out.
use rootlesskit.Base.{
  if◌then◌else◌, ℤ, eq_ℤ, Bool, true, false, not, ◌&&◌, ◌||◌, Option, none, some, List, [], ◌∷◌,
  ◌++◌, Result, ok, err, ◌>>=◌, ◌>>◌, reject_if, or_fail,
}
use rootlesskit.Text.{Bytes, codes, is_empty}
use rootlesskit.Text.Search.{has_prefix, split, trim_space, fields}
use rootlesskit.Text.Decimal.{atoi, itoa}
use rootlesskit.SubId.{SubIdRange, Scanned}

pub data Error : Type 0 where
  no_getsubids exec_failed unparsable scan_failed : Error

-- The second to fourth field of a line; more are ignored.
read_triplet : List Bytes → Result Error SubIdRange
read_triplet (user ∷ start ∷ len ∷ rest) = do
  s ← or_fail (atoi start) unparsable
  l ← or_fail (atoi len) unparsable
  ok (record { start = s; size = l })
read_triplet _ = err unparsable

read_split : List Bytes → Result Error SubIdRange
unfolding read_triplet
read_split (index ∷ triplet ∷ rest) = read_triplet (fields (trim_space triplet))
read_split _ = err unparsable

-- The body of the loop: the entries that a line adds.
unfoldable pub read_entry : Bytes → Result Error (List SubIdRange)
unfolding read_split
read_entry text =
    let line = trim_space text in
    if is_empty line || has_prefix line (codes "#")
    then ok []
    else (read_split (split line b':') >>= λ r. ok (r ∷ []))

-- What is read, with the error that ends the reading, if one does: the entries before it stay.
abbrev pub Reading : Type 0
Reading = List SubIdRange × Option Error

before : Result Error (List SubIdRange) → Reading → Reading
before (err e) later = ([], some e)
before (ok new) (res, e) = (new ++ res, e)

unfoldable pub read_entries : List Bytes → Reading
unfolding before
read_entries [] = ([], none)
read_entries (l ∷ ls) = before (read_entry l) (read_entries ls)

end_scan : Bool → Reading → Reading
end_scan failed (res, some e) = (res, some e)
end_scan failed (res, none) = (res, if failed then some scan_failed else none)

-- `parseGetsubidsOutput`.
unfoldable pub parse_getsubids_output : Scanned → Reading
unfolding end_scan
parse_getsubids_output s = end_scan s.failed (read_entries s.lines)

-- `execGetsubids` of `getsubids [-g] user`; a failure of the program is `none`.
abbrev pub Getsubids : Type 0
Getsubids = Bool → Bytes → Option Scanned

unfoldable pub exec_getsubids : Getsubids → Bool → Bytes → Reading
exec_getsubids run g s = elim (run g s) [
  | none ↦ ([], some exec_failed)
  | some out ↦ parse_getsubids_output out
]

-- `seenKeys[item]`.
unfoldable pub is_seen : SubIdRange → List SubIdRange → Bool
is_seen r [] = false
is_seen r (s ∷ seen) = (eq_ℤ r.start s.start && eq_ℤ r.size s.size) || is_seen r seen

-- The loop of `withoutDuplicates`, with the keys of the map.
unfoldable pub without_seen : List SubIdRange → List SubIdRange → List SubIdRange
unfolding is_seen
without_seen seen [] = []
without_seen seen (r ∷ rs) =
    let dropped = without_seen seen rs in
    let kept = r ∷ without_seen (r ∷ seen) rs in if is_seen r seen then dropped else kept

-- `withoutDuplicates`.
unfoldable pub without_duplicates : List SubIdRange → List SubIdRange
unfolding without_seen
without_duplicates rs = without_seen [] rs

-- Both lookups, by the name and by the ID: only two failures are an error. What a lookup read
-- before it failed is used too.
unfoldable pub merge : Reading → Reading → Result Error (List SubIdRange)
merge (a, some e) (b, some e') = err e
merge (a, some e) (b, none) = ok (without_duplicates (a ++ b))
merge (a, none) (b, e) = ok (without_duplicates (a ++ b))

-- `GetSubIDRanges`; `found` is whether exec.LookPath finds the program.
unfoldable pub get_dynamic_ranges :
    Bool → Getsubids → ℤ → Bytes → Result Error (List SubIdRange × List SubIdRange)
get_dynamic_ranges found run uid username = do
  reject_if (not found) no_getsubids
  u ← merge (exec_getsubids run false username) (exec_getsubids run false (itoa uid))
  g ← merge (exec_getsubids run true username) (exec_getsubids run true (itoa uid))
  ok (u, g)
