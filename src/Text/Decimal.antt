-- ===== src/Text/Decimal.antt =====
-- `strconv.Itoa` and `strconv.Atoi` on 64-bit integers.
use rootlesskit.Base.{
  all, ltb, leb, ◌==◌, if◌then◌else◌, Bool-cases, ℤ, pos, negsuc, ℕ, zero, suc, ◌+◌, ◌-◌, ◌*◌, ◌/◌,
  ◌%◌, ◌≤◌, ◌<◌, ◌≡◌, refl, ◌∙◌, ◌≢◌, inl, inr, Bool, true, false, ◌&&◌, Option, none, some, [],
  ◌∷◌, arith,
}
use rootlesskit.Text.Search.{contains}
use rootlesskit.Text.{Bytes}

abbrev pub is_digit : ℕ → Bool
is_digit c = leb b'0' c && leb c b'9'

-- The decimal digits of `n` in front of `acc`; more than `n` rounds of fuel are enough.
show_digits : ℕ → ℕ → Bytes → Bytes
show_digits zero n acc = acc
show_digits (suc f) n acc =
    let rest = show_digits f (n / 10) ((b'0' + n % 10) ∷ acc) in
    if ltb n 10 then (b'0' + n) ∷ acc else rest

abbrev show_ℕ : ℕ → Bytes
show_ℕ n = show_digits (suc n) n []

unfoldable pub itoa : ℤ → Bytes
unfolding show_digits
itoa (pos n) = show_ℕ n
itoa (negsuc n) = b'-' ∷ show_ℕ (suc n)

read_digits : ℕ → Bytes → Option ℕ
read_digits acc [] = some acc
read_digits acc (c ∷ s) =
    let rest = read_digits (acc * 10 + (c - b'0')) s in if is_digit c then rest else none

-- At least one digit, and nothing but digits.
read_ℕ : Bytes → Option ℕ
unfolding read_digits
read_ℕ [] = none
read_ℕ (c ∷ s) = read_digits 0 (c ∷ s)

abbrev pub max_int : ℕ
max_int = 9223372036854775807

to_pos : Option ℕ → Option ℤ
to_pos none = none
to_pos (some n) = if leb n max_int then some (pos n) else none

to_neg : Option ℕ → Option ℤ
to_neg none = none
to_neg (some zero) = some (pos 0)
to_neg (some (suc n)) = if leb n max_int then some (negsuc n) else none

-- `none` is an error, of syntax or of range.
unfoldable pub atoi : Bytes → Option ℤ
unfolding read_ℕ to_pos to_neg
atoi [] = none
atoi (c ∷ s) =
    if c == b'-'
    then to_neg (read_ℕ s)
    else if c == b'+'
    then to_pos (read_ℕ s)
    else to_pos (read_ℕ (c ∷ s))

-- The range of Go's `int`.
abbrev pub InRange : ℤ → Type 0
InRange (pos n) = n ≤ max_int
InRange (negsuc n) = n ≤ max_int

read_digits-show_digits :
    (f n : ℕ) (acc : Bytes) → n < f → read_digits 0 (show_digits f n acc) ≡ read_digits n acc
unfolding read_digits show_digits
read_digits-show_digits zero n acc h = elim h [ ]
read_digits-show_digits (suc f) n acc h = elim (Bool-cases (ltb n 10)) [
  | inl small ↦ rw small (ground arith)
  | inr large ↦
      rw large
        (read_digits-show_digits f (n / 10) ((b'0' + n % 10) ∷ acc) (ground arith) ∙ ground arith)
]

show_digits-is_digit :
    (f n : ℕ) (acc : Bytes) → all is_digit acc ≡ true → all is_digit (show_digits f n acc) ≡ true
unfolding show_digits
show_digits-is_digit zero n acc h = h
show_digits-is_digit (suc f) n acc h = elim (Bool-cases (ltb n 10)) [
  | inl small ↦ rw small (ground arith)
  | inr large ↦ rw large (show_digits-is_digit f (n / 10) ((b'0' + n % 10) ∷ acc) (ground arith))
]

show_digits-ne-nil : (f n c : ℕ) (acc : Bytes) → show_digits f n (c ∷ acc) ≢ []
unfolding show_digits
show_digits-ne-nil zero n c acc = ground arith
show_digits-ne-nil (suc f) n c acc =
    ground (arith, show_digits-ne-nil f (n / 10) (b'0' + n % 10) (c ∷ acc))

show_ℕ-ne-nil : (n : ℕ) → show_ℕ n ≢ []
unfolding show_digits
show_ℕ-ne-nil n = ground (arith, show_digits-ne-nil n (n / 10) (b'0' + n % 10) [])

read_ℕ-ne-nil : (s : Bytes) → s ≢ [] → read_ℕ s ≡ read_digits 0 s
unfolding read_ℕ
read_ℕ-ne-nil [] h = absurd (h refl)
read_ℕ-ne-nil (c ∷ s) h = refl

read_ℕ-show_ℕ : (n : ℕ) → read_ℕ (show_ℕ n) ≡ some n
unfolding read_digits
read_ℕ-show_ℕ n =
    read_ℕ-ne-nil (show_ℕ n) (show_ℕ-ne-nil n) ∙ read_digits-show_digits (suc n) n [] (omega arith)

atoi_digits : (s : Bytes) → s ≢ [] → all is_digit s ≡ true → atoi s ≡ to_pos (read_ℕ s)
unfolding atoi
atoi_digits [] h k = absurd (h refl)
atoi_digits (c ∷ s) h k = ground arith

pub itoa_digits : (n : ℕ) → all is_digit (itoa (pos n)) ≡ true
unfolding itoa
itoa_digits n = show_digits-is_digit (suc n) n [] refl

pub itoa-ne-nil : (z : ℤ) → itoa z ≢ []
unfolding itoa
itoa-ne-nil (pos n) = show_ℕ-ne-nil n
itoa-ne-nil (negsuc n) = ground arith

-- Every `int` is read back from its decimal text.
pub atoi-itoa : (z : ℤ) → InRange z → atoi (itoa z) ≡ some z
unfolding itoa
atoi-itoa (pos n) h =
    atoi_digits (show_ℕ n) (show_ℕ-ne-nil n) (itoa_digits n)
    ∙ rw (read_ℕ-show_ℕ n) (unfold to_pos in ground arith)
atoi-itoa (negsuc n) h = unfold atoi in rw (read_ℕ-show_ℕ (suc n)) (ground arith)

digits_without :
    (c : ℕ) (s : Bytes) → is_digit c ≡ false → all is_digit s ≡ true → contains s c ≡ false
digits_without c [] h k = refl
digits_without c (d ∷ s) h k = ground (arith, digits_without c s)

-- A decimal text holds digits and a minus sign only.
pub itoa-without : (z : ℤ) (c : ℕ) → is_digit c ≡ false → c ≢ b'-' → contains (itoa z) c ≡ false
unfolding itoa
itoa-without (pos n) c h k = digits_without c (itoa (pos n)) h (itoa_digits n)
itoa-without (negsuc n) c h k =
    ground (arith, digits_without c (itoa (pos (suc n))) h (itoa_digits (suc n)))
