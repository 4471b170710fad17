-- ===== src/UdpProxy/Replies.antt =====
-- A reply goes to the client whose datagrams use the connection.
use rootlesskit.Base.{
  ◌==◌, if◌then◌else◌, Bool-cases, Option-cases, ℕ, ◌<◌, ◌≡◌, refl, sym, ap, ◌∙◌, subst, ◌⊎◌, inl,
  inr, Bool, true, false, Option, none, some, arith,
}
use rootlesskit.Text.{Bytes}
use rootlesskit.UdpProxy.{
  Addr, Key, Proxy, conn_track_key, key_eq, open_conn, IsClient, Reach, on_datagram, started, ended,
  end_loop, drop_key, new_proxy, written, find_conn, drop_conn, at_key, datagram,
}
use rootlesskit.UdpProxy.Table.{key_eq_iff, key-injective}

-- Entries and reply loops are in step, and loops stand under numbers that have been dialled.
pub record Inv (len : ℕ) (zone_of : Bytes → Bytes) (p : Proxy) : Type 0 where
  pub has_loop :
      (k : Key) (c : ℕ)
      → p.table k ≡ some c
      → (a : Addr) × (p.loops c ≡ some a) × (conn_track_key a ≡ some k)
  pub has_entry :
      (c : ℕ) (a : Addr)
      → p.loops c ≡ some a
      → (k : Key) × (conn_track_key a ≡ some k) × (p.table k ≡ some c)
  pub is_dialled : (c : ℕ) (a : Addr) → p.loops c ≡ some a → c < p.dialled
  pub is_client : (c : ℕ) (a : Addr) → p.loops c ≡ some a → IsClient len zone_of a

open_conn-Inv :
    (len : ℕ) (zone_of : Bytes → Bytes) (a : Addr) (k : Key) (p : Proxy)
    → Inv len zone_of p
    → IsClient len zone_of a
    → conn_track_key a ≡ some k
    → p.table k ≡ none
    → Inv len zone_of (open_conn a k p)
unfolding open_conn
open_conn-Inv len zone_of a k p v client key free = record {
  has_loop = λ l c h. elim (Bool-cases (key_eq k l)) [
    | inl e ↦
        let same : l ≡ k = ground (arith, key_eq_iff k l) in
        let num : c ≡ p.dialled = ground arith in (a, ground arith, key ∙ ap some (sym same))
    | inr e ↦
        let old : p.table l ≡ some c = ground arith in
        let (b, there, kb) = v.has_loop l c old in (b, ground (arith, v.is_dialled c b there), kb)
  ];
  has_entry = λ c b h. elim (Bool-cases (p.dialled == c)) [
    | inl e ↦
        let same : b ≡ a = ground arith in
        (k, ap conn_track_key same ∙ key, ground (arith, key_eq_iff k k))
    | inr e ↦
        let old : p.loops c ≡ some b = ground arith in
        let (l, kb, there) = v.has_entry c b old in (l, kb, kept l c there)
  ];
  is_dialled = λ c b h. ground (arith, v.is_dialled c b);
  is_client = λ c b h. elim (Bool-cases (p.dialled == c)) [
    | inl e ↦ let same : b ≡ a = ground arith in subst (IsClient len zone_of) (sym same) client
    | inr e ↦ v.is_client c b (ground arith)
  ];
}
  where
    kept :
        (l : Key) (c : ℕ)
        → p.table l ≡ some c
        → (if key_eq k l then some p.dialled else p.table l) ≡ some c
    kept l c there = elim (Bool-cases (key_eq k l)) [
      | inl e ↦
          let same : k ≡ l = (key_eq_iff k l).0 e in
          absurd (ground (arith, ap p.table same, free, there))
      | inr e ↦ ground (arith, e, there)
    ]

abbrev removed : ℕ → Key → Proxy → Proxy
removed c k p = drop_key c (some k) p

removed-Inv :
    (len : ℕ) (zone_of : Bytes → Bytes) (c : ℕ) (a : Addr) (k : Key) (p : Proxy)
    → Inv len zone_of p
    → p.loops c ≡ some a
    → conn_track_key a ≡ some k
    → p.table k ≡ some c
    → Inv len zone_of (removed c k p)
unfolding drop_key
removed-Inv len zone_of c a k p v here key entry = record {
  has_loop = λ l d h.
      let old : p.table l ≡ some d = ground arith in
      let (b, there, kb) = v.has_loop l d old in (b, loop_kept l d b h there kb, kb);
  has_entry = λ d b h.
      let old : p.loops d ≡ some b = ground arith in
      let (l, kb, there) = v.has_entry d b old in (l, kb, entry_kept l d b h there);
  is_dialled = λ d b h. v.is_dialled d b (ground arith);
  is_client = λ d b h. v.is_client d b (ground arith);
}
  where
    loop_kept :
        (l : Key) (d : ℕ) (b : Addr)
        → (if key_eq k l then none else p.table l) ≡ some d
        → p.loops d ≡ some b
        → conn_track_key b ≡ some l
        → (if c == d then none else p.loops d) ≡ some b
    loop_kept l d b h there kb = elim (Bool-cases (c == d)) [
      | inl e ↦
          let same : c ≡ d = ground arith in
          let client : a ≡ b = ground (arith, ap p.loops same, here, there) in
          let keys : k ≡ l = ground (arith, ap conn_track_key client, key, kb) in
          absurd (ground (arith, (key_eq_iff k l).1 keys, h))
      | inr e ↦ ground (arith, e, there)
    ]

    entry_kept :
        (l : Key) (d : ℕ) (b : Addr)
        → (if c == d then none else p.loops d) ≡ some b
        → p.table l ≡ some d
        → (if key_eq k l then none else p.table l) ≡ some d
    entry_kept l d b h there = elim (Bool-cases (key_eq k l)) [
      | inl e ↦
          let keys : k ≡ l = (key_eq_iff k l).0 e in
          let nums : c ≡ d = ground (arith, ap p.table keys, entry, there) in
          absurd (ground (arith, h, nums))
      | inr e ↦ ground (arith, e, there)
    ]

end_loop-Inv :
    (len : ℕ) (zone_of : Bytes → Bytes) (c : ℕ) (p : Proxy)
    → Inv len zone_of p
    → Inv len zone_of (end_loop c p)
unfolding end_loop drop_conn
end_loop-Inv len zone_of c p v = elim (Option-cases (p.loops c)) [
  | inl gone ↦ rw (gone, end_loop) v
  | inr (a, here) ↦
      let (k, key, entry) = v.has_entry c a here in
      rw (here, end_loop, key, drop_conn) (removed-Inv len zone_of c a k p v here key entry)
]

on_datagram-Inv :
    (len : ℕ) (zone_of : Bytes → Bytes) (dials : Bool) (a : Addr) (p : Proxy)
    → Inv len zone_of p
    → IsClient len zone_of a
    → Inv len zone_of (on_datagram dials a p).0
unfolding on_datagram
on_datagram-Inv len zone_of dials a p v client = elim (Option-cases (conn_track_key a)) [
  | inl none_here ↦ rw (none_here, at_key) v
  | inr (k, key) ↦ rw (key, at_key) (found dials k key (p.table k) refl)
]
  where
    found :
        (dials : Bool) (k : Key)
        → conn_track_key a ≡ some k
        → (o : Option ℕ) → p.table k ≡ o
        → Inv len zone_of (find_conn dials a k o p).0
    found d k key (some c) e = v
    found true k key none e = open_conn-Inv len zone_of a k p v client key e
    found false k key none e = v

new_proxy-Inv : (len : ℕ) (zone_of : Bytes → Bytes) → Inv len zone_of new_proxy
new_proxy-Inv len zone_of = record {
  has_loop = λ k c h. absurd (ground arith);
  has_entry = λ c a h. absurd (ground arith);
  is_dialled = λ c a h. absurd (ground arith);
  is_client = λ c a h. absurd (ground arith);
}

Reach-Inv :
    {len : ℕ} {zone_of : Bytes → Bytes} {p : Proxy} → Reach len zone_of p → Inv len zone_of p
Reach-Inv {len} {zone_of} started = new_proxy-Inv len zone_of
Reach-Inv {len} {zone_of} (datagram {p} r dials a client) =
    on_datagram-Inv len zone_of dials a p (Reach-Inv r) client
Reach-Inv {len} {zone_of} (ended {p} r c) = end_loop-Inv len zone_of c p (Reach-Inv r)

-- The connection that a datagram is written to stands in the table.
written-entry :
    (dials : Bool) (a : Addr) (p : Proxy) (c : ℕ)
    → (on_datagram dials a p).1 ≡ written c
    → (k : Key) × (conn_track_key a ≡ some k) × ((on_datagram dials a p).0.table k ≡ some c)
unfolding on_datagram open_conn
written-entry dials a p c h = elim (Option-cases (conn_track_key a)) [
  | inl none_here ↦
      absurd (ground (arith, subst (λ o. (at_key dials a o p).1 ≡ written c) none_here h))
  | inr (k, key) ↦
      let h' : (find_conn dials a k (p.table k) p).1 ≡ written c =
        subst (λ o. (at_key dials a o p).1 ≡ written c) key h in
      (
        k,
        key,
        subst (λ o. (at_key dials a o p).0.table k ≡ some c) (sym key)
            (entry dials k (p.table k) refl h'),
      )
]
  where
    entry :
        (d : Bool) (k : Key) (o : Option ℕ)
        → p.table k ≡ o
        → (find_conn d a k o p).1 ≡ written c
        → (find_conn d a k o p).0.table k ≡ some c
    entry d k (some b) e h = ground (arith, e)
    entry true k none e h = ground (arith, key_eq_iff k k)
    entry false k none e h = absurd (ground arith)

-- In every reachable state of a proxy whose clients have addresses of one length, 4 or 16 bytes, and
-- of which no two differ in the zone of the address alone: where a datagram is written to a connection, the reply loop of the connection answers to the
-- address that the datagram came from.
pub replies-return :
    (len : ℕ) (zone_of : Bytes → Bytes) (p : Proxy) (dials : Bool) (a : Addr) (c : ℕ)
    → Reach len zone_of p
    → (len ≡ 4) ⊎ (len ≡ 16)
    → IsClient len zone_of a
    → (on_datagram dials a p).1 ≡ written c
    → (on_datagram dials a p).0.loops c ≡ some a
replies-return len zone_of p dials a c r lengths client h =
    let v = Reach-Inv (datagram r dials a client) in
    let (k, key, entry) = written-entry dials a p c h in
    let (b, there, kb) = v.has_loop k c entry in
    let same : b ≡ a =
      key-injective len zone_of b a k lengths (v.is_client c b there) client kb key in
    there ∙ ap some same
