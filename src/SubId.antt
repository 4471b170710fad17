-- ===== src/SubId.antt =====
-- The subordinate IDs of a user: pkg/parent/idtools/idtools.go (the files /etc/subuid and
-- /etc/subgid), pkg/parent/dynidtools/dynidtools.go (the program getsubids, in Dynamic), and in
-- pkg/parent/parent.go their choice (Source) and the maps made of them (Maps).
pub mod Dynamic
pub mod Source
pub mod Maps
pub mod Unique
pub mod Examples
use rootlesskit.Base.{
  length, if◌then◌else◌, ℤ, Bool, true, false, not, ◌&&◌, ◌||◌, Option, List, [], ◌∷◌, ◌++◌, Result,
  ok, err, ◌>>=◌, ◌>>◌, reject_if, or_fail,
}
use rootlesskit.Text.{Bytes, codes, str_eq, is_empty}
use rootlesskit.Text.Search.{has_prefix, split, trim_space}
use rootlesskit.Text.Decimal.{atoi, itoa}

-- `SubIDRange`.
pub record SubIdRange : Type 0 where
  pub start : ℤ
  pub size : ℤ

-- What a `bufio.Scanner` makes of a text: its lines, and whether it ends with an error.
pub record Scanned : Type 0 where
  pub lines : List Bytes
  pub failed : Bool

pub data Error : Type 0 where
  open_failed bad_format bad_number scan_failed no_subuid no_subgid : Error

-- `parts[0] == uidS || (username != "" && parts[0] == username)`.
unfoldable pub is_owner : Bytes → Bytes → Bytes → Bool
is_owner uid_s username name =
    str_eq name uid_s || (not (is_empty username) && str_eq name username)

-- The ranges that the fields of a line add.
unfoldable pub read_parts : Bytes → Bytes → List Bytes → Result Error (List SubIdRange)
read_parts uid_s username (name ∷ start ∷ len ∷ []) =
    if is_owner uid_s username name
    then (do
      startid ← or_fail (atoi start) bad_number
      length ← or_fail (atoi len) bad_number
      ok (record { start = startid; size = length } ∷ []))
    else ok []
read_parts uid_s username _ = err bad_format

-- The body of the loop.
unfoldable pub read_line : Bytes → Bytes → Bytes → Result Error (List SubIdRange)
unfolding read_parts
read_line uid_s username line =
    let text = trim_space line in
    if is_empty text || has_prefix text (codes "#")
    then ok []
    else read_parts uid_s username (split text b':')

unfoldable pub read_lines : Bytes → Bytes → List Bytes → Result Error (List SubIdRange)
read_lines uid_s username [] = ok []
read_lines uid_s username (l ∷ ls) = do
  new ← read_line uid_s username l
  rest ← read_lines uid_s username ls
  ok (new ++ rest)

-- `parseSubidFile`, of a file that can be opened (`some`) or not. The callers drop the ranges that
-- are returned with an error.
unfoldable pub parse_subid_file : Option Scanned → ℤ → Bytes → Result Error (List SubIdRange)
parse_subid_file file uid username = do
  s ← or_fail file open_failed
  ranges ← read_lines (itoa uid) username s.lines
  reject_if s.failed scan_failed
  ok ranges

abbrev pub has_ranges : List SubIdRange → Bool
has_ranges [] = false
has_ranges (r ∷ rs) = true

-- `GetSubIDRanges`.
unfoldable pub get_subid_ranges :
    Option Scanned → Option Scanned → ℤ → Bytes → Result Error (List SubIdRange × List SubIdRange)
get_subid_ranges subuid subgid uid username = do
  u ← parse_subid_file subuid uid username
  g ← parse_subid_file subgid uid username
  reject_if (not (has_ranges u)) no_subuid
  reject_if (not (has_ranges g)) no_subgid
  ok (u, g)
