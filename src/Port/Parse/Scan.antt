-- ===== src/Port/Parse/Scan.antt =====
-- How the loop of `ParsePortSpec` reads a text, however the scanner cuts it into tokens.
use mathlib.Core.List.{append_assoc, append-nil}
use rootlesskit.Base.{
  all, leb, ◌==◌, ℕ, zero, suc, ◌≤◌, ◌≡◌, refl, sym, ap, ◌∙◌, subst, ◌≢◌, ◌⊎◌, Bool, true, false,
  not, ◌&&◌, ◌||◌, List, [], ◌∷◌, ◌++◌, arith, ok, all-append_both,
}
use rootlesskit.Text.{Bytes}
use rootlesskit.Port.Parse.{
  Token, rune, word, token_text, Parts, add_text, Scanning, on_token, scan_parts,
}

-- The characters at which the loop acts.
abbrev pub is_mark : ℕ → Bool
is_mark c = c == b':' || c == b'[' || c == b']'

-- Letters, digits and dots, of which the scanner may make a token.
abbrev pub is_name : ℕ → Bool
is_name c =
    (leb b'a' c && leb c b'z')
    || (leb b'A' c && leb c b'Z')
    || (leb b'0' c && leb c b'9')
    || c == b'.'

-- Tokens of a text with nothing between them: a mark is a token of its own.
pub data Tokens : Bytes → List Token → Type 0 where
  done : Tokens [] []
  mark :
      {s : Bytes} {toks : List Token} (c : ℕ)
      → is_mark c ≡ true
      → Tokens s toks
      → Tokens (c ∷ s) (rune c ∷ toks)
  name :
      {r s : Bytes} {toks : List Token} (tok : Token)
      → all is_name (token_text tok) ≡ true
      → token_text tok ≢ []
      → r ≡ token_text tok ++ s
      → Tokens s toks
      → Tokens r (tok ∷ toks)

-- What `text/scanner` does on a text of address characters, where it meets no white space,
-- quote or comment.
abbrev pub ScansAddresses : (Bytes → List Token) → Type 0
ScansAddresses scan = (s : Bytes) → all (λ c. is_name c || is_mark c) s ≡ true → Tokens s (scan s)

-- `parts[index] += text` at an index in range.
abbrev pub put_text : ℕ → Bytes → Parts → Parts
put_text zero t p = record p { parent_ip = p.parent_ip ++ t }
put_text (suc zero) t p = record p { parent_port = p.parent_port ++ t }
put_text (suc (suc zero)) t p = record p { child_ip = p.child_ip ++ t }
put_text (suc (suc (suc n))) t p = record p { child_port = p.child_port ++ t }

add_text-ok : (i : ℕ) (t : Bytes) (p : Parts) → i ≤ 3 → add_text i t p ≡ ok (put_text i t p)
unfolding add_text
add_text-ok zero t p h = refl
add_text-ok (suc zero) t p h = refl
add_text-ok (suc (suc zero)) t p h = refl
add_text-ok (suc (suc (suc zero))) t p h = refl
add_text-ok (suc (suc (suc (suc n)))) t p h = absurd (omega arith)

put_text-append :
    (i : ℕ) (t u : Bytes) (p : Parts) → put_text i u (put_text i t p) ≡ put_text i (t ++ u) p
put_text-append zero t u p = rw append_assoc
put_text-append (suc zero) t u p = rw append_assoc
put_text-append (suc (suc zero)) t u p = rw append_assoc
put_text-append (suc (suc (suc n))) t u p = rw append_assoc

put_text-nil : (i : ℕ) (p : Parts) → put_text i [] p ≡ p
put_text-nil zero p = rw append-nil
put_text-nil (suc zero) p = rw append-nil
put_text-nil (suc (suc zero)) p = rw append-nil
put_text-nil (suc (suc (suc n))) p = rw append-nil

-- A text inside one part: no opening bracket, and not the delimiter.
abbrev pub IsInner : ℕ → Bytes → Type 0
IsInner d w = all (λ c. not (c == b'[') && not (c == d)) w ≡ true

-- Reading in the middle of a part.
abbrev pub reading : Parts → ℕ → ℕ → Scanning
reading p i d = record { parts = p; index = i; delimiter = d; skip = false }

-- A token whose text is inside the part is added to it.
on_token-inner :
    (tok : Token) (p : Parts) (i d : ℕ)
    → i ≤ 3
    → (d ≡ b':') ⊎ (d ≡ b']')
    → IsInner d (token_text tok)
    → on_token tok (reading p i d) ≡ ok (reading (put_text i (token_text tok) p) i d)
unfolding on_token
on_token-inner (rune c) p i d h m w = ground (arith, add_text-ok i (c ∷ []) p)
on_token-inner (word t) p i d h m w = ground (arith, add_text-ok i t p)

name_prefix :
    (t w s rest : Bytes) (c : ℕ)
    → all is_name t ≡ true
    → is_mark c ≡ true
    → t ++ s ≡ w ++ c ∷ rest
    → (v : Bytes) × (w ≡ t ++ v) × (s ≡ v ++ c ∷ rest)
name_prefix [] w s rest c n m e = (w, refl, e)
name_prefix (x ∷ t) [] s rest c n m e = absurd (ground arith)
name_prefix (x ∷ t) (y ∷ w) s rest c n m e =
    let (v, f, g) = name_prefix t w s rest c (ground arith) m (ground arith) in (v, ground arith, g)

append_ne-nil : (t v : Bytes) → t ≢ [] → t ++ v ≢ []
append_ne-nil [] v h = absurd (h refl)
append_ne-nil (x ∷ t) v h = ground arith

pub Tokens-nil : {r : Bytes} {toks : List Token} → Tokens r toks → r ≡ [] → toks ≡ []
Tokens-nil done e = refl
Tokens-nil (mark c m t) e = absurd (ground arith)
Tokens-nil (name {s} tok n ne e' t) e = absurd (append_ne-nil (token_text tok) s ne (sym e' ∙ e))

-- The first token of a text that begins with a mark.
pub Tokens-mark :
    {r : Bytes} {toks : List Token} (c : ℕ) (rest : Bytes)
    → is_mark c ≡ true
    → Tokens r toks
    → r ≡ c ∷ rest
    → (more : List Token) × (toks ≡ rune c ∷ more) × Tokens rest more
Tokens-mark c rest m done e = absurd (ground arith)
Tokens-mark c rest m (mark {toks} b n t) e =
    (toks, ground arith, subst (λ r. Tokens r toks) (ground arith) t)
Tokens-mark c rest m (name tok n ne e' t) e =
    let (v, f, g) = name_prefix (token_text tok) [] _ rest c n m (sym e' ∙ e) in
    absurd (append_ne-nil (token_text tok) v ne (sym f))

-- From `st` the loop comes to a token `c`, in state `st'`, with the tokens of `rest` behind it.
abbrev Reaches : List Token → Scanning → ℕ → Bytes → Scanning → Type 0
Reaches toks st c rest st' =
    (more : List Token) × Tokens rest more × (scan_parts toks st ≡ scan_parts (rune c ∷ more) st')

Reaches-step :
    (tok : Token) (toks : List Token) (p p' : Parts) (i d : ℕ) (c : ℕ) (rest : Bytes)
    (st : Scanning)
    → on_token tok (reading p i d) ≡ ok (reading p' i d)
    → Reaches toks (reading p' i d) c rest st
    → Reaches (tok ∷ toks) (reading p i d) c rest st
unfolding scan_parts
Reaches-step tok toks p p' i d c rest st e (more, ts, q) = (more, ts, rw e q)

-- The tokens of one part, up to the mark that ends it, add the text of the part.
pub scan_part :
    {r : Bytes} {toks : List Token} (w rest : Bytes) (c : ℕ) (p : Parts) (i d : ℕ)
    → i ≤ 3
    → (d ≡ b':') ⊎ (d ≡ b']')
    → IsInner d w
    → is_mark c ≡ true
    → Tokens r toks
    → r ≡ w ++ c ∷ rest
    → Reaches toks (reading p i d) c rest (reading (put_text i w p) i d)
scan_part [] rest c p i d h k n m done e = absurd (ground arith)
scan_part (x ∷ w) rest c p i d h k n m done e = absurd (ground arith)
scan_part [] rest c p i d h k n m (mark {toks} b mb t) e =
    (toks, subst (λ r. Tokens r toks) (ground arith) t, rw (put_text-nil i p) (ground arith))
scan_part (x ∷ w) rest c p i d h k n m (mark {toks} b mb t) e =
    let same : b ≡ x = ground arith in
    Reaches-step (rune b) toks p (put_text i (b ∷ []) p) i d c rest _
      (on_token-inner (rune b) p i d h k (ground arith))
      (rw (← put_text-append i (x ∷ []) w p, ← same)
        (scan_part w rest c (put_text i (b ∷ []) p) i d h k (ground arith) m t (ground arith)))
scan_part w rest c p i d h k n m (name {s} {toks} tok nm ne e' t) e =
    let (v, f, g) = name_prefix (token_text tok) w s rest c nm m (sym e' ∙ e) in
    let (first, others) = all-append_both _ (token_text tok) v (rw f at n) in
    Reaches-step tok toks p (put_text i (token_text tok) p) i d c rest _
      (on_token-inner tok p i d h k first)
      (rw (f, ← put_text-append i (token_text tok) v p)
        (scan_part v rest c (put_text i (token_text tok) p) i d h k others m t g))

append_split : (t s w : Bytes) → t ++ s ≡ w → (d : ℕ) → IsInner d w → IsInner d t × IsInner d s
append_split t s w e d h = all-append_both _ t s (rw (← e) at h)

-- The tokens of the last part, up to the end.
pub scan_rest :
    {r : Bytes} {toks : List Token} (p : Parts) (i d : ℕ)
    → i ≤ 3
    → (d ≡ b':') ⊎ (d ≡ b']')
    → IsInner d r
    → Tokens r toks
    → scan_parts toks (reading p i d) ≡ ok (put_text i r p)
unfolding scan_parts
scan_rest p i d h k n done = rw (put_text-nil i p)
scan_rest p i d h k n (mark {s} {toks} b mb t) =
    rw (on_token-inner (rune b) p i d h k (ground arith)) (
      scan_rest (put_text i (b ∷ []) p) i d h k (ground arith) t
      ∙ ap ok (put_text-append i (b ∷ []) s p))
scan_rest {r} p i d h k n (name {s} {toks} tok nm ne e t) =
    let (first, others) = append_split (token_text tok) s r (sym e) d n in
    rw (on_token-inner tok p i d h k first) (
      scan_rest (put_text i (token_text tok) p) i d h k others t
      ∙ ap ok (put_text-append i (token_text tok) s p ∙ rw (← e)))
