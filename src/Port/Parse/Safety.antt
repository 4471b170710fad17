-- ===== src/Port/Parse/Safety.antt =====
-- `ParsePortSpec` stays within its slices, on every text and with every scanner.
use rootlesskit.Base.{
  length, take, drop, leb, leb→le, Bool-cases, ℕ, zero, suc, ◌≤◌, ◌<◌, ◌≡◌, ◌≢◌, inl, inr, true,
  false, Option, none, some, List, [], ◌∷◌, arith, Result, ok, err, or_fail, wrap_err, bind-ne-err,
}
use rootlesskit.Text.{Bytes}
use rootlesskit.Text.Search.{last_index, contains}
use rootlesskit.Net.{Net}
use rootlesskit.Port.Validate.{validate_proto}
use rootlesskit.Port.Validate.Accepts.{
  IsKnownProto, tcp, udp, sctp, any_family, v4, v6, validate_proto_iff,
}
use rootlesskit.Port.Parse.{
  Error, panic, Token, Scanning, add_text, on_token, scan_parts, slice, finish_spec,
  parse_port_spec, Parts, token_text, missing_proto, unexpected_spec, invalid_proto, start_scanning,
}

proto-without_colon : (p : Bytes) → IsKnownProto p → contains p b':' ≡ false
proto-without_colon p (tcp, any_family, e) = rw e
proto-without_colon p (tcp, v4, e) = rw e
proto-without_colon p (tcp, v6, e) = rw e
proto-without_colon p (udp, any_family, e) = rw e
proto-without_colon p (udp, v4, e) = rw e
proto-without_colon p (udp, v6, e) = rw e
proto-without_colon p (sctp, any_family, e) = rw e
proto-without_colon p (sctp, v4, e) = rw e
proto-without_colon p (sctp, v6, e) = rw e

-- The byte found stands in every tail of the text that begins at or before it.
last_index-in_tail :
    (s : Bytes) (c i k : ℕ) → last_index s c ≡ some i → k ≤ i → contains (drop k s) c ≡ true
unfolding last_index
last_index-in_tail [] c i k e h = cc
last_index-in_tail (x ∷ s) c zero zero e h = ground arith
last_index-in_tail (x ∷ s) c zero (suc k) e h = absurd (omega arith)
last_index-in_tail (x ∷ s) c (suc i) zero e h = ground (arith, last_index-in_tail s c i 0)
last_index-in_tail (x ∷ s) c (suc i) (suc k) e h = ground (arith, last_index-in_tail s c i k)

-- The tail that begins at the byte found.
last_index-tail : (s : Bytes) (c i : ℕ) → last_index s c ≡ some i → drop i s ≡ c ∷ drop (suc i) s
unfolding last_index
last_index-tail [] c i e = cc
last_index-tail (x ∷ s) c zero e = ground arith
last_index-tail (x ∷ s) c (suc i) e = ground (arith, last_index-tail s c i)

last_index-lt : (s : Bytes) (c i : ℕ) → last_index s c ≡ some i → i < length s
unfolding last_index
last_index-lt [] c i e = cc
last_index-lt (x ∷ s) c zero e = omega arith
last_index-lt (x ∷ s) c (suc i) e = ground (arith, last_index-lt s c i)

-- The last colon stands before the last slash, if a known protocol follows the slash.
colon-lt-slash :
    (s : Bytes) (i j : ℕ)
    → last_index s b'/' ≡ some i
    → last_index s b':' ≡ some j
    → contains (drop (suc i) s) b':' ≡ false
    → j < i
colon-lt-slash s i j e f h = elim (Bool-cases (leb i j)) [
  | inl le ↦ absurd (late (leb→le i j le))
  | inr gt ↦ ground arith
]
  where
    late : i ≤ j → ⊥
    late le =
        ground (arith, rw (last_index-tail s b'/' i e) at (last_index-in_tail s b':' j i f le))

add_text-ne-panic : (i : ℕ) (t : Bytes) (p : Parts) → i ≤ 3 → add_text i t p ≢ err panic
unfolding add_text
add_text-ne-panic zero t p h = ground arith
add_text-ne-panic (suc zero) t p h = ground arith
add_text-ne-panic (suc (suc zero)) t p h = ground arith
add_text-ne-panic (suc (suc (suc zero))) t p h = ground arith
add_text-ne-panic (suc (suc (suc (suc n)))) t p h = absurd (omega arith)

on_token-ne-panic : (tok : Token) (s : Scanning) → on_token tok s ≢ err panic
unfolding on_token
on_token-ne-panic tok s = ground (arith, add_text-ne-panic s.index (token_text tok) s.parts)

scan_parts-ne-panic : (toks : List Token) (s : Scanning) → scan_parts toks s ≢ err panic
unfolding scan_parts
scan_parts-ne-panic [] s = ground arith
scan_parts-ne-panic (tok ∷ toks) s =
    bind-ne-err _ (scan_parts toks) panic (ground (arith, on_token-ne-panic tok s))
      (λ t _. scan_parts-ne-panic toks t)

slice-ne-panic : (s : Bytes) (lo hi : ℕ) → lo ≤ hi → hi ≤ length s → slice s lo hi ≢ err panic
unfolding slice
slice-ne-panic s lo hi h k = ground arith

finish_spec-ne-panic : (net : Net) (proto : Bytes) (p : Parts) → finish_spec net proto p ≢ err panic
unfolding finish_spec
finish_spec-ne-panic net proto p = ground arith

or_fail-some {ℓ} :
    {E : Type 0} {A : Type ℓ} (o : Option A) (e : E) (a : A) → or_fail o e ≡ ok a → o ≡ some a
or_fail-some none e a h = cc
or_fail-some (some x) e a h = cc

or_fail-ne-err {ℓ} :
    {E : Type 0} {A : Type ℓ} (o : Option A) (e f : E) → e ≢ f → or_fail o e ≢ err f
or_fail-ne-err none e f h p = h (cc p)
or_fail-ne-err (some x) e f h p = cc

abbrev checked_proto : Bytes → Result Error (Unit {0})
checked_proto p = wrap_err (λ _. invalid_proto) (validate_proto p)

checked_proto-ne-panic : (p : Bytes) → checked_proto p ≢ err panic
checked_proto-ne-panic p = ground arith

known_of_ok : (p : Bytes) (u : Unit {0}) → checked_proto p ≡ ok u → IsKnownProto p
known_of_ok p u h = (validate_proto_iff p).0 (ground arith)

-- ParsePortSpec never slices or indexes out of range, on any text and with any scanner.
pub parse_port_spec-ne-panic :
    (net : Net) (scan : Bytes → List Token) (s : Bytes) → parse_port_spec net scan s ≢ err panic
unfolding parse_port_spec
parse_port_spec-ne-panic net scan s =
    bind-ne-err _ _ panic (or_fail-ne-err (last_index s b'/') missing_proto panic (ground arith))
      λ i slash.
        bind-ne-err (checked_proto (drop (suc i) s)) _ panic
          (checked_proto-ne-panic (drop (suc i) s))
          λ u known.
            bind-ne-err _ _ panic
              (or_fail-ne-err (last_index s b':') unexpected_spec panic (ground arith))
              λ j colon.
                let found = or_fail-some (last_index s b'/') missing_proto i slash in
                let before =
                  colon-lt-slash s i j found
                    (or_fail-some (last_index s b':') unexpected_spec j colon)
                    (proto-without_colon _ (known_of_ok (drop (suc i) s) u known)) in
                bind-ne-err _ _ panic
                  (slice-ne-panic s (suc j) i before (omega (arith, last_index-lt s b'/' i found)))
                  λ port _.
                    bind-ne-err (scan_parts (scan (take j s)) (start_scanning port))
                      (finish_spec net (drop (suc i) s)) panic
                      (scan_parts-ne-panic (scan (take j s)) (start_scanning port))
                      λ parts _. finish_spec-ne-panic net (drop (suc i) s) parts
