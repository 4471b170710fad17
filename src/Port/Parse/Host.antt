-- ===== src/Port/Parse/Host.antt =====
-- Addresses in a port specification: the brackets around IPv6 addresses.
use mathlib.Core.List.{append_assoc}
use rootlesskit.Base.{
  all, ◌==◌, if◌then◌else◌, Bool-cases, ℕ, ◌+◌, ◌≤◌, ◌≡◌, refl, ◌∙◌, inl, inr, true, false, ◌||◌,
  List, [], ◌∷◌, ◌++◌, arith, ok,
}
use rootlesskit.Text.{Bytes}
use rootlesskit.Text.Search.{contains}
use rootlesskit.Port.Parse.{Token, rune, Parts, on_token, scan_parts}
use rootlesskit.Port.Parse.Scan.{
  Tokens, is_name, IsInner, reading, put_text, scan_part, scan_rest, Tokens-mark, Tokens-nil,
}

-- An address as `ParsePortSpec` expects it: in brackets if it has a colon.
abbrev pub host : Bytes → Bytes
host ip = if contains ip b':' then b'[' ∷ (ip ++ b']' ∷ []) else ip

abbrev pub IsAddress : Bytes → Type 0
IsAddress ip = all (λ c. is_name c || c == b':') ip ≡ true

address-IsInner_bracket : (ip : Bytes) → IsAddress ip → IsInner b']' ip
address-IsInner_bracket [] h = refl
address-IsInner_bracket (c ∷ ip) h = ground (arith, address-IsInner_bracket ip)

address-IsInner_colon : (ip : Bytes) → IsAddress ip → contains ip b':' ≡ false → IsInner b':' ip
address-IsInner_colon [] h k = refl
address-IsInner_colon (c ∷ ip) h k = ground (arith, address-IsInner_colon ip)

-- An opening bracket.
open_bracket :
    {toks : List Token} (rest : Bytes) (p : Parts) (i : ℕ)
    → i ≤ 3
    → Tokens (b'[' ∷ rest) toks
    → (more : List Token) × Tokens rest more
      × (scan_parts toks (reading p i b':') ≡ scan_parts more (reading p i b']'))
unfolding scan_parts on_token
open_bracket rest p i low t =
    let (more, e, ts) = Tokens-mark b'[' rest refl t refl in (more, ts, rw e (ground arith))

-- A closing bracket and the colon behind it, which is skipped.
close_bracket :
    {toks : List Token} (rest : Bytes) (p : Parts) (i : ℕ)
    → i ≤ 3
    → Tokens (b':' ∷ rest) toks
    → (more : List Token) × Tokens rest more
      × (scan_parts (rune b']' ∷ toks) (reading p i b']')
          ≡ scan_parts more (reading p (i + 1) b':'))
unfolding scan_parts on_token
close_bracket rest p i low t =
    let (more, e, ts) = Tokens-mark b':' rest refl t refl in (more, ts, rw e (ground arith))

close_last : (p : Parts) (i : ℕ) → i ≤ 3 → scan_parts (rune b']' ∷ []) (reading p i b']') ≡ ok p
unfolding scan_parts on_token
close_last p i low = ground arith

bracketed : (ip rest : Bytes) → (ip ++ b']' ∷ []) ++ rest ≡ ip ++ b']' ∷ rest
bracketed ip rest = append_assoc ip (b']' ∷ []) rest

module _ {toks : List Token} (ip : Bytes) (p : Parts) (i : ℕ) (low : i ≤ 3)
    (address : IsAddress ip) where
  scan_host_v6 :
      (rest : Bytes)
      → Tokens (b'[' ∷ (ip ++ b']' ∷ b':' ∷ rest)) toks
      → (more : List Token) × Tokens rest more
        × (scan_parts toks (reading p i b':')
            ≡ scan_parts more (reading (put_text i ip p) (i + 1) b':'))
  scan_host_v6 rest t =
      let (ts1, t1, e1) = open_bracket (ip ++ b']' ∷ b':' ∷ rest) p i low t in
      let (ts2, t2, e2) =
        scan_part ip (b':' ∷ rest) b']' p i b']' low (inr refl) (address-IsInner_bracket ip address)
          refl t1 refl in
      let (ts3, t3, e3) = close_bracket rest (put_text i ip p) i low t2 in (ts3, t3, e1 ∙ e2 ∙ e3)

  -- An address and the colon behind it.
  pub scan_host :
      (rest : Bytes)
      → Tokens (host ip ++ b':' ∷ rest) toks
      → (more : List Token) × Tokens rest more
        × (scan_parts toks (reading p i b':')
            ≡ scan_parts more (reading (put_text i ip p) (i + 1) b':'))
  unfolding scan_parts on_token
  scan_host rest t = elim (Bool-cases (contains ip b':')) [
    | inl v6 ↦ scan_host_v6 rest (rw (v6, bracketed ip (b':' ∷ rest)) at t)
    | inr v4 ↦
        let (more, ts, q) =
          scan_part ip rest b':' p i b':' low (inl refl) (address-IsInner_colon ip address v4) refl
            t (rw v4) in
        (more, ts, q ∙ ground arith)
  ]

  -- An address at the end of the text.
  pub scan_last_host :
      Tokens (host ip) toks → scan_parts toks (reading p i b':') ≡ ok (put_text i ip p)
  scan_last_host t = elim (Bool-cases (contains ip b':')) [
    | inl v6 ↦
        let (ts1, t1, e1) = open_bracket (ip ++ b']' ∷ []) p i low (rw v6 at t) in
        let (ts2, t2, e2) =
          scan_part ip [] b']' p i b']' low (inr refl) (address-IsInner_bracket ip address) refl t1
            refl in
        e1 ∙ e2 ∙ rw (Tokens-nil t2 refl) (close_last (put_text i ip p) i low)
    | inr v4 ↦ scan_rest p i b':' low (inl refl) (address-IsInner_colon ip address v4) (rw v4 at t)
  ]
