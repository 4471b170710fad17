-- ===== src/Handshake/Reexec.antt =====
-- `gainCaps` of pkg/child/child.go: the counter of the re-executions of the child, which is kept in
-- a variable of its environment.
use rootlesskit.Base.{
  ltb, if◌then◌else◌, ltb→lt, Bool-cases, ℤ, pos, ltb_ℤ, ◌+ℤ◌, ℕ, zero, suc, ◌+◌, ◌-◌, ◌≤◌, ◌≡◌,
  refl, sym, ap, ◌∙◌, subst, inl, inr, true, [], arith, Result, ok, err, ◌>>=◌, ◌>>◌, reject_if,
  or_fail, is_ok,
}
use rootlesskit.Text.{Bytes, is_empty}
use rootlesskit.Text.Decimal.{atoi, itoa}

pub data Error : Type 0 where
  bad_count : Bytes → Error
  no_caps : ℤ → Error

read_count : Bytes → Result Error ℤ
read_count value = if is_empty value then ok (pos 0) else or_fail (atoi value) (bad_count value)

-- The value of the variable for the next execution, from its value in this one.
unfoldable pub gain_caps : Bytes → Result Error Bytes
unfolding read_count
gain_caps value = do
  n ← read_count value
  reject_if (ltb_ℤ (pos 10) n) (no_caps n)
  ok (itoa (n +ℤ pos 1))

-- A child that never has capabilities, by the executions; the variable is not set at first.
unfoldable pub executions : ℕ → Result Error Bytes
executions zero = ok []
executions (suc n) = executions n >>= gain_caps

eleventh : is_ok (executions 11) ≡ true
unfolding executions gain_caps atoi itoa ◌+ℤ◌
eleventh = refl

twelfth : executions 12 ≡ err (no_caps (pos 11))
unfolding executions gain_caps atoi itoa ◌+ℤ◌
twelfth = refl

-- An error is the end.
given_up : (n : ℕ) → executions (n + 12) ≡ err (no_caps (pos 11))
unfolding executions
given_up zero = twelfth
given_up (suc n) =
    let next : suc n + 12 ≡ suc (n + 12) = omega arith in
    ap executions next ∙ ap (λ r. r >>= gain_caps) (given_up n)

earlier : (m n : ℕ) → is_ok (executions (m + n)) ≡ true → is_ok (executions n) ≡ true
unfolding executions
earlier zero n h =
    let same : zero + n ≡ n = omega arith in subst (λ k. is_ok (executions k) ≡ true) same h
earlier (suc m) n h =
    let next : suc m + n ≡ suc (m + n) = omega arith in
    let h' : is_ok (executions (m + n) >>= gain_caps) ≡ true =
      subst (λ k. is_ok (executions k) ≡ true) next h in
    earlier m n (first (executions (m + n)) h')
  where
    first : (r : Result Error Bytes) → is_ok (r >>= gain_caps) ≡ true → is_ok r ≡ true
    first (ok v) k = refl
    first (err e) k = k

-- A child that never gains capabilities executes itself again eleven times and no more: the
-- executions go on without an error just as long as there are fewer than twelve.
pub executions-bounded : (n : ℕ) → is_ok (executions n) ≡ ltb n 12
executions-bounded n = elim (Bool-cases (ltb n 12)) [
  | inl few ↦
      let eleven : 11 ≡ 11 - n + n = omega (arith, ltb→lt n 12 few) in
      earlier (11 - n) n (subst (λ k. is_ok (executions k) ≡ true) eleven eleventh) ∙ sym few
  | inr many ↦
      let more : 12 ≤ n = ground arith in
      let split : n ≡ n - 12 + 12 = omega (arith, more) in
      ap (λ k. is_ok (executions k)) split ∙ ap is_ok (given_up (n - 12)) ∙ sym many
]
