-- ===== src/UdpProxy/Table.antt =====
-- Keys tell the addresses of one listener apart, and every entry of the table has its reply loop.
use rootlesskit.Base.{
  All, length, take, drop, take-append-drop, length-take, Option-cases, ℤ, eq_ℤ_iff, ℕ, ◌+◌, ◌*◌,
  ◌^◌, ◌<◌, ◌≡◌, refl, sym, ap, ◌∙◌, ◌↔◌, ◌⊎◌, inl, inr, true, Option, none, some, ◌++◌, arith,
  All-take, All-drop, length-drop,
}
use rootlesskit.Text.{Bytes}
use rootlesskit.IpUtils.{uint32}
use rootlesskit.IpUtils.Numbers.{uint32-injective, uint32-bound}
use rootlesskit.UdpProxy.{Addr, Key, uint64, v4_key, v6_key, conn_track_key, key_eq, IsClient}

pub key_eq_iff : (k l : Key) → (key_eq k l ≡ true) ↔ (k ≡ l)
key_eq_iff k l = ground (arith, eq_ℤ_iff k.port l.port)

-- Eight bytes are two times four.
halves :
    (a : Bytes) (n : ℕ)
    → length a ≡ 8
    → All (λ x. x < 256) a
    → uint64 a ≡ some n
    → (h : ℕ) × (l : ℕ) × (uint32 (take 4 a) ≡ some h)
      × (uint32 (drop 4 a) ≡ some l)
      × (l < 2 ^ 32)
      × (n ≡ h * 4294967296 + l)
unfolding uint64
halves a n la xa ua = elim (Option-cases (uint32 (take 4 a))) [
  | inl e ↦ absurd (ground (arith, ua, e))
  | inr (h, e) ↦ elim (Option-cases (uint32 (drop 4 a))) [
    | inl f ↦ absurd (ground (arith, ua, e, f))
    | inr (l, f) ↦ (
      h,
      l,
      e,
      f,
      uint32-bound (drop 4 a) l (omega (arith, length-drop 4 a, la))
          (All-drop (λ x. x < 256) 4 a xa) f,
      ground (arith, ua, e, f),
    )
  ]
]

glue : (n : ℕ) (a b : Bytes) → take n a ≡ take n b → drop n a ≡ drop n b → a ≡ b
glue n a b front back =
    let joined : take n a ++ drop n a ≡ take n b ++ drop n b = rw (front, back) refl in
    sym (take-append-drop n a) ∙ joined ∙ take-append-drop n b

uint64-injective :
    (a b : Bytes) (n : ℕ)
    → length a ≡ 8
    → length b ≡ 8
    → All (λ x. x < 256) a
    → All (λ x. x < 256) b
    → uint64 a ≡ some n
    → uint64 b ≡ some n
    → a ≡ b
uint64-injective a b n la lb xa xb ua ub =
    let (h, l, e, f, small, sum) = halves a n la xa ua in
    let (h', l', e', f', small', sum') = halves b n lb xb ub in
    let high : h' ≡ h = omega arith in
    let low : l' ≡ l = omega arith in
    let front : take 4 a ≡ take 4 b =
      uint32-injective (take 4 a) (take 4 b) h (omega (arith, length-take 4 a, la))
        (omega (arith, length-take 4 b, lb)) (All-take (λ x. x < 256) 4 a xa)
        (All-take (λ x. x < 256) 4 b xb) e (e' ∙ ap some high) in
    let back : drop 4 a ≡ drop 4 b =
      uint32-injective (drop 4 a) (drop 4 b) l (omega (arith, length-drop 4 a, la))
        (omega (arith, length-drop 4 b, lb)) (All-drop (λ x. x < 256) 4 a xa)
        (All-drop (λ x. x < 256) 4 b xb) f (f' ∙ ap some low) in
    glue 4 a b front back

v6-lengths : (a : Bytes) → length a ≡ 16 → (length (take 8 a) ≡ 8) × (length (drop 8 a) ≡ 8)
v6-lengths a l = (omega (arith, length-take 8 a, l), omega (arith, length-drop 8 a, l))

v4_key-low :
    (port : ℤ) (o : Option ℕ) (k : Key)
    → v4_key port o ≡ some k
    → (o ≡ some k.ip_low) × (port ≡ k.port)
v4_key-low port none k h = absurd (ground arith)
v4_key-low port (some n) k h = ground arith

v6_key-parts :
    (port : ℤ) (o u : Option ℕ) (k : Key)
    → v6_key port o u ≡ some k
    → (o ≡ some k.ip_high) × (u ≡ some k.ip_low) × (port ≡ k.port)
v6_key-parts port none u k h = absurd (ground arith)
v6_key-parts port (some n) none k h = absurd (ground arith)
v6_key-parts port (some n) (some m) k h = ground arith

v4-conn_track_key : (a : Addr) → length a.ip ≡ 4 → conn_track_key a ≡ v4_key a.port (uint32 a.ip)
unfolding conn_track_key
v4-conn_track_key a l = ground (arith, l)

v6-conn_track_key :
    (a : Addr)
    → length a.ip ≡ 16
    → conn_track_key a ≡ v6_key a.port (uint64 (take 8 a.ip)) (uint64 (drop 8 a.ip))
unfolding conn_track_key
v6-conn_track_key a l = ground (arith, l)

-- Two clients' addresses, of 4 or 16 bytes, with the same key are the same.
pub key-injective :
    (len : ℕ) (zone_of : Bytes → Bytes) (a b : Addr) (k : Key)
    → (len ≡ 4) ⊎ (len ≡ 16)
    → IsClient len zone_of a
    → IsClient len zone_of b
    → conn_track_key a ≡ some k
    → conn_track_key b ≡ some k
    → a ≡ b
key-injective len zone_of a b k (inl four) xa xb ka kb =
    let (ua, pa) =
      v4_key-low a.port (uint32 a.ip) k (sym (v4-conn_track_key a (xa.ip_length ∙ four)) ∙ ka) in
    let (ub, pb) =
      v4_key-low b.port (uint32 b.ip) k (sym (v4-conn_track_key b (xb.ip_length ∙ four)) ∙ kb) in
    let same : a.ip ≡ b.ip =
      uint32-injective a.ip b.ip k.ip_low (xa.ip_length ∙ four) (xb.ip_length ∙ four) xa.ip_bytes
        xb.ip_bytes ua ub in
    ground (arith, same, pa, pb, xa.own_zone, xb.own_zone, ap zone_of same)
key-injective len zone_of a b k (inr sixteen) xa xb ka kb =
    let la = xa.ip_length ∙ sixteen in
    let lb = xb.ip_length ∙ sixteen in
    let (ha, ua, pa) =
      v6_key-parts a.port (uint64 (take 8 a.ip)) (uint64 (drop 8 a.ip)) k
        (sym (v6-conn_track_key a la) ∙ ka) in
    let (hb, ub, pb) =
      v6_key-parts b.port (uint64 (take 8 b.ip)) (uint64 (drop 8 b.ip)) k
        (sym (v6-conn_track_key b lb) ∙ kb) in
    let front =
      uint64-injective (take 8 a.ip) (take 8 b.ip) k.ip_high (v6-lengths a.ip la).0
        (v6-lengths b.ip lb).0 (All-take (λ x. x < 256) 8 a.ip xa.ip_bytes)
        (All-take (λ x. x < 256) 8 b.ip xb.ip_bytes) ha hb in
    let back =
      uint64-injective (drop 8 a.ip) (drop 8 b.ip) k.ip_low (v6-lengths a.ip la).1
        (v6-lengths b.ip lb).1 (All-drop (λ x. x < 256) 8 a.ip xa.ip_bytes)
        (All-drop (λ x. x < 256) 8 b.ip xb.ip_bytes) ua ub in
    let same : a.ip ≡ b.ip = glue 8 a.ip b.ip front back in
    ground (arith, same, pa, pb, xa.own_zone, xb.own_zone, ap zone_of same)
