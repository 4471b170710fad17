-- ===== src/SubId/Source.antt =====
-- `getSubIDRanges` of pkg/parent/parent.go, by the results of the two sources.
use rootlesskit.Base.{
  if◌then◌else◌, Bool-cases, Option-cases, ℤ, ◌≡◌, ◌∙◌, inl, inr, Bool, true, false, ◌&&◌, ◌||◌,
  Option, List, arith, Result, ok, err, ◌>>=◌, or_fail, wrap_err, Result-cases,
}
use rootlesskit.Text.{Bytes, codes, str_eq, is_empty}
use rootlesskit.Text.Decimal.{atoi}
use rootlesskit.SubId
use rootlesskit.SubId.{SubIdRange, Scanned, has_ranges, get_subid_ranges, parse_subid_file}
use rootlesskit.SubId.Dynamic
use rootlesskit.SubId.Dynamic.{Getsubids, get_dynamic_ranges}

pub data Error : Type 0 where
  bad_uid unknown_source : Error
  static_failed : SubId.Error → Error
  dynamic_failed : Dynamic.Error → Error

abbrev pub Ranges : Type 0
Ranges = List SubIdRange × List SubIdRange

-- The files and the program, and the user's name and ID (`user.User`).
pub record System : Type 0 where
  pub subuid : Option Scanned
  pub subgid : Option Scanned
  pub found : Bool
  pub getsubids : Getsubids
  pub uid : Bytes
  pub username : Bytes

unfoldable pub static_ranges : System → ℤ → Result Error Ranges
static_ranges sys uid =
    wrap_err static_failed (get_subid_ranges sys.subuid sys.subgid uid sys.username)

unfoldable pub dynamic_ranges : System → ℤ → Result Error Ranges
dynamic_ranges sys uid =
    wrap_err dynamic_failed (get_dynamic_ranges sys.found sys.getsubids uid sys.username)

-- The source "auto".
unfoldable pub auto_ranges : Result Error Ranges → Result Error Ranges → Result Error Ranges
auto_ranges (ok (u, g)) static = if has_ranges u && has_ranges g then ok (u, g) else static
auto_ranges (err e) static = static

unfoldable pub get_ranges : System → Bytes → Result Error Ranges
get_ranges sys source = do
  uid ← or_fail (atoi sys.uid) bad_uid
  if str_eq source (codes "static")
      then static_ranges sys uid
      else if str_eq source (codes "dynamic")
      then dynamic_ranges sys uid
      else if is_empty source || str_eq source (codes "auto")
      then auto_ranges (dynamic_ranges sys uid) (static_ranges sys uid)
      else err unknown_source

-- The static source gives ranges of both kinds or an error.
get_subid_ranges-has_ranges :
    (subuid subgid : Option Scanned) (uid : ℤ) (username : Bytes) (u g : List SubIdRange)
    → get_subid_ranges subuid subgid uid username ≡ ok (u, g)
    → (has_ranges u ≡ true) × (has_ranges g ≡ true)
unfolding get_subid_ranges
get_subid_ranges-has_ranges subuid subgid uid username u g h =
    elim (Result-cases (parse_subid_file subuid uid username)) [
      | inl (u', e) ↦ elim (Result-cases (parse_subid_file subgid uid username)) [
        | inl (g', e') ↦ (ground arith, ground arith)
        | inr (x, e') ↦ absurd (ground arith)
      ]
      | inr (x, e) ↦ absurd (ground arith)
    ]

static_ranges-has_ranges :
    (sys : System) (uid : ℤ) (u g : List SubIdRange)
    → static_ranges sys uid ≡ ok (u, g)
    → (has_ranges u ≡ true) × (has_ranges g ≡ true)
unfolding static_ranges
static_ranges-has_ranges sys uid u g h =
    elim (Result-cases (get_subid_ranges sys.subuid sys.subgid uid sys.username)) [
      | inl ((u', g'), e) ↦
          get_subid_ranges-has_ranges sys.subuid sys.subgid uid sys.username u g (e ∙ ground arith)
      | inr (x, e) ↦ absurd (ground arith)
    ]

auto_ranges-has_ranges :
    (sys : System) (uid : ℤ) (dynamic : Result Error Ranges) (u g : List SubIdRange)
    → auto_ranges dynamic (static_ranges sys uid) ≡ ok (u, g)
    → (has_ranges u ≡ true) × (has_ranges g ≡ true)
unfolding auto_ranges
auto_ranges-has_ranges sys uid (err x) u g h = static_ranges-has_ranges sys uid u g h
auto_ranges-has_ranges sys uid (ok (u', g')) u g h =
    elim (Bool-cases (has_ranges u' && has_ranges g')) [
      | inl e ↦ (ground arith, ground arith)
      | inr e ↦ static_ranges-has_ranges sys uid u g (ground arith)
    ]

-- With a source that is not "dynamic", the ranges that getSubIDRanges returns hold a range of
-- user IDs and one of group IDs.
pub get_ranges-has_ranges :
    (sys : System) (source : Bytes) (u g : List SubIdRange)
    → str_eq source (codes "dynamic") ≡ false
    → get_ranges sys source ≡ ok (u, g)
    → (has_ranges u ≡ true) × (has_ranges g ≡ true)
unfolding get_ranges
get_ranges-has_ranges sys source u g other h = elim (Option-cases (atoi sys.uid)) [
  | inl e ↦ absurd (ground arith)
  | inr (uid, e) ↦ ground (
    arith,
    static_ranges-has_ranges sys uid u g,
    auto_ranges-has_ranges sys uid (dynamic_ranges sys uid) u g,
  )
]
