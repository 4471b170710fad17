-- ===== src/Text/Search.antt =====
-- Prefixes, suffixes, bytes and fields of a text, as the package `strings` finds them.
use mathlib.Core.List.{reverse}
use rootlesskit.Base.{
  any, length, take, drop, ◌==◌, if◌then◌else◌, ℕ, zero, suc, ◌≡◌, refl, Bool, true, false, ◌&&◌,
  ◌||◌, Option, none, some, List, [], ◌∷◌, ◌++◌, arith,
}
use rootlesskit.Text.{Bytes}

-- `strings.HasPrefix(s, prefix)`.
unfoldable pub has_prefix : Bytes → Bytes → Bool
has_prefix s [] = true
has_prefix [] (p ∷ ps) = false
has_prefix (c ∷ s) (p ∷ ps) = c == p && has_prefix s ps

-- `strings.TrimPrefix(s, prefix)`.
unfoldable pub trim_prefix : Bytes → Bytes → Bytes
unfolding has_prefix
trim_prefix s p = if has_prefix s p then drop (length p) s else s

-- `strings.HasSuffix(s, suffix)`.
unfoldable pub has_suffix : Bytes → Bytes → Bool
unfolding has_prefix
has_suffix s p = has_prefix (reverse s) (reverse p)

-- `strings.TrimSuffix(s, suffix)`.
unfoldable pub trim_suffix : Bytes → Bytes → Bytes
unfolding has_suffix
trim_suffix s p = if has_suffix s p then reverse (drop (length p) (reverse s)) else s

-- `strings.Contains(s, substr)`.
unfoldable pub has_infix : Bytes → Bytes → Bool
unfolding has_prefix
has_infix [] p = has_prefix [] p
has_infix (c ∷ s) p = has_prefix (c ∷ s) p || has_infix s p

-- `strings.Contains(s, c)` at one byte.
abbrev pub contains : Bytes → ℕ → Bool
contains s c = any (λ x. x == c) s

-- `strings.LastIndex(s, c)` at one byte; -1 is `none`.
unfoldable pub last_index : Bytes → ℕ → Option ℕ
last_index [] c = none
last_index (x ∷ xs) c = elim (last_index xs c) [
  | some i ↦ some (suc i)
  | none ↦ if x == c then some 0 else none
]

-- `strings.Split(s, c)` at one byte: never empty.
cons_head : ℕ → List Bytes → List Bytes
cons_head x [] = (x ∷ []) ∷ []
cons_head x (p ∷ ps) = (x ∷ p) ∷ ps

unfoldable pub split : Bytes → ℕ → List Bytes
unfolding cons_head
split [] c = [] ∷ []
split (x ∷ xs) c = if x == c then [] ∷ split xs c else cons_head x (split xs c)

-- White space of ASCII: tab, newline, vertical tab, form feed, return, space.
abbrev pub is_space : ℕ → Bool
is_space c = c == 9 || c == 10 || c == 11 || c == 12 || c == 13 || c == b' '

unfoldable pub trim_left : Bytes → Bytes
trim_left [] = []
trim_left (c ∷ s) = if is_space c then trim_left s else c ∷ s

-- `strings.TrimSpace(s)`.
unfoldable pub trim_space : Bytes → Bytes
unfolding trim_left
trim_space s = reverse (trim_left (reverse (trim_left s)))

-- `strings.Fields(s)`: the words between runs of white space. `word` is the one being read.
add_word : Bytes → List Bytes → List Bytes
add_word [] ws = ws
add_word (c ∷ w) ws = (c ∷ w) ∷ ws

fields_from : Bytes → Bytes → List Bytes
unfolding add_word
fields_from word [] = add_word word []
fields_from word (c ∷ s) =
    let cut = add_word word (fields_from [] s) in
    let more = fields_from (word ++ c ∷ []) s in if is_space c then cut else more

unfoldable pub fields : Bytes → List Bytes
unfolding fields_from
fields s = fields_from [] s

pub last_index-append :
    (a b : Bytes) (c : ℕ) → contains b c ≡ false → last_index (a ++ c ∷ b) c ≡ some (length a)
unfolding last_index
last_index-append [] b c h = rw (last_index-absent b c h, last_index) (ground arith)
  where
    last_index-absent : (s : Bytes) (d : ℕ) → contains s d ≡ false → last_index s d ≡ none
    last_index-absent [] d k = refl
    last_index-absent (x ∷ s) d k = ground (arith, last_index-absent s d)
last_index-append (x ∷ a) b c h = rw (last_index-append a b c h, last_index)

last_index-none : (s : Bytes) (c : ℕ) → last_index s c ≡ none → contains s c ≡ false
unfolding last_index
last_index-none [] c e = refl
last_index-none (x ∷ s) c e = ground (arith, last_index-none s c)

-- What `last_index` found is there, and nowhere behind.
pub last_index-splits :
    (s : Bytes) (c i : ℕ)
    → last_index s c ≡ some i
    → (s ≡ take i s ++ c ∷ drop (suc i) s) × (contains (drop (suc i) s) c ≡ false)
unfolding last_index
last_index-splits [] c i e = cc
last_index-splits (x ∷ s) c zero e = ground (arith, last_index-none s c)
last_index-splits (x ∷ s) c (suc i) e = ground (arith, last_index-splits s c i)

-- The first piece ends at the first separator.
pub split-line :
    (line rest : Bytes) (c : ℕ)
    → contains line c ≡ false
    → split (line ++ c ∷ rest) c ≡ line ∷ split rest c
unfolding split cons_head
split-line [] rest c h = ground arith
split-line (x ∷ line) rest c h = ground (arith, split-line line rest c)
