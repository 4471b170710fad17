-- ===== src/IpUtils/Numbers.antt =====
-- Addresses and their numbers.
use rootlesskit.Base.{
  All, length, ltb, if◌then◌else◌, ltb→lt, lt→ltb, Bool-cases, ℤ, pos, ltb_ℤ, ◌+ℤ◌, ℕ, ◌+◌, ◌-◌,
  ◌*◌, ◌/◌, ◌%◌, ◌^◌, ◌<◌, ◌≡◌, sym, ap, ◌∙◌, inl, inr, some, [], ◌∷◌, arith, ok, err,
}
use rootlesskit.Text.{Bytes}
use rootlesskit.Net.{to4}
use rootlesskit.IpUtils.{
  uint32, put_uint32, to_uint32, add_ip_int, add_v4, add_number, overflow, add_int64, wrap_int64,
}

abbrev pub IsByte : ℕ → Type 0
IsByte b = b < 256

pub uint32-put : (n : ℕ) → uint32 (put_uint32 n) ≡ some (n % 2 ^ 32)
unfolding uint32 put_uint32
uint32-put n = ap some (omega arith)

bytes_back :
    (a b c d n : ℕ)
    → IsByte a
    → IsByte b
    → IsByte c
    → IsByte d
    → n ≡ a * 16777216 + b * 65536 + c * 256 + d
    → put_uint32 n ≡ a ∷ b ∷ c ∷ d ∷ []
unfolding put_uint32
bytes_back a b c d n xa xb xc xd e =
    let e1 : n / 16777216 % 256 ≡ a = omega arith in
    let e2 : n / 65536 % 256 ≡ b = omega arith in
    let e3 : n / 256 % 256 ≡ c = omega arith in let e4 : n % 256 ≡ d = omega arith in cc

pub put-uint32 :
    (a : Bytes) (n : ℕ) → length a ≡ 4 → All IsByte a → uint32 a ≡ some n → put_uint32 n ≡ a
unfolding uint32
put-uint32 (a ∷ b ∷ c ∷ d ∷ []) n l x e =
    bytes_back a b c d n x.0 x.1.0 x.1.1.0 x.1.1.1.0 (ground arith)
put-uint32 _ n l x e = absurd (ground arith)

pub uint32-injective :
    (a b : Bytes) (n : ℕ)
    → length a ≡ 4
    → length b ≡ 4
    → All IsByte a
    → All IsByte b
    → uint32 a ≡ some n
    → uint32 b ≡ some n
    → a ≡ b
uint32-injective a b n la lb xa xb ua ub = sym (put-uint32 a n la xa ua) ∙ put-uint32 b n lb xb ub

pub uint32-bound :
    (a : Bytes) (n : ℕ) → length a ≡ 4 → All IsByte a → uint32 a ≡ some n → n < 2 ^ 32
unfolding uint32
uint32-bound (a ∷ b ∷ c ∷ d ∷ []) n l x e =
    let xa : a < 256 = x.0 in
    let xb : b < 256 = x.1.0 in
    let xc : c < 256 = x.1.1.0 in
    let xd : d < 256 = x.1.1.1.0 in
    let e' : a * 16777216 + b * 65536 + c * 256 + d ≡ n = ground arith in omega arith
uint32-bound _ n l x e = absurd (ground arith)

to4-four : (ip : Bytes) → length ip ≡ 4 → to4 ip ≡ some ip
unfolding to4
to4-four ip l = ground (arith, l)

sum_number :
    (n m : ℕ) (i : ℤ)
    → pos n +ℤ i ≡ pos m
    → m < 2 ^ 63
    → add_number i (some n) ≡ (if ltb m (2 ^ 32) then ok (put_uint32 m) else err overflow)
unfolding add_number to_uint32 add_int64 wrap_int64
sum_number n m i e small = rw (e, add_number, lt→ltb m (2 ^ 63) small) (number m)
  where
    number :
        (m : ℕ)
        → (if ltb_ℤ (pos (2 ^ 32 - 1)) (pos m) then err overflow else ok (put_uint32 (m % 2 ^ 32)))
          ≡ (if ltb m (2 ^ 32) then ok (put_uint32 m) else err overflow)
    number m = elim (Bool-cases (ltb m (2 ^ 32))) [
      | inl t ↦
          let same : m % 2 ^ 32 ≡ m = omega (arith, ltb→lt m (2 ^ 32) t) in ground (arith, same)
      | inr t ↦ ground arith
    ]

-- Where an IPv4 address, given as four bytes, and an integer have a sum that is not negative and
-- below 2 ^ 63, so that the sum on 64 bits does not wrap around, AddIPInt gives the four bytes of the sum, whose number is the sum again, and the error of an
-- overflow just if the sum is beyond the last address.
pub add_ip_int-bounds :
    (ip : Bytes) (n m : ℕ) (i : ℤ)
    → length ip ≡ 4
    → uint32 ip ≡ some n
    → pos n +ℤ i ≡ pos m
    → m < 2 ^ 63
    → (add_ip_int ip i ≡ (if ltb m (2 ^ 32) then ok (put_uint32 m) else err overflow))
      × (uint32 (put_uint32 m) ≡ some (m % 2 ^ 32))
unfolding add_ip_int add_v4
add_ip_int-bounds ip n m i l u e small =
    (rw (to4-four ip l, u) (sum_number n m i e small), uint32-put m)
