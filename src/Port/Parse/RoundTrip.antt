-- ===== src/Port/Parse/RoundTrip.antt =====
-- `ParsePortSpec` reads back the format that its comment describes,
-- "<parent IP>:<parent port>[:<child IP>]:<child port>/<proto>".
use mathlib.Core.List.{append_assoc, append-nil}
use rootlesskit.Base.{
  all, length, take, length-append, take-length_append, Bool-cases, ℤ, pos, ℕ, suc, ◌≡◌, refl, ◌∙◌,
  inl, inr, true, false, ◌||◌, some, List, [], ◌∷◌, ◌++◌, arith, ok, ◌>>=◌, all-append,
  drop-suc-length,
}
use rootlesskit.Text.{Bytes}
use rootlesskit.Text.Search.{last_index, contains, last_index-append}
use rootlesskit.Text.Decimal.{itoa, atoi, is_digit, itoa_digits, atoi-itoa}
use rootlesskit.Net.{Net}
use rootlesskit.Port.{Spec}
use rootlesskit.Port.Validate.Accepts.{
  IsKnownProto, tcp, udp, sctp, any_family, v4, v6, validate_proto_iff, IsIpOrEmpty, not_bad_ip,
  IsPort,
}
use rootlesskit.Port.Parse.{
  Token, Parts, no_parts, on_token, scan_parts, slice, start_scanning, finish_spec, parse_port_spec,
}
use rootlesskit.Port.Parse.Scan.{
  Tokens, ScansAddresses, is_mark, is_name, IsInner, reading, put_text, scan_part, scan_rest,
}
use rootlesskit.Port.Parse.Host.{host, IsAddress, scan_host, scan_last_host}

-- A known protocol has neither colon nor slash.
proto_plain : (p : Bytes) → IsKnownProto p → (contains p b':' ≡ false) × (contains p b'/' ≡ false)
proto_plain p (tcp, any_family, e) = rw e (refl, refl)
proto_plain p (tcp, v4, e) = rw e (refl, refl)
proto_plain p (tcp, v6, e) = rw e (refl, refl)
proto_plain p (udp, any_family, e) = rw e (refl, refl)
proto_plain p (udp, v4, e) = rw e (refl, refl)
proto_plain p (udp, v6, e) = rw e (refl, refl)
proto_plain p (sctp, any_family, e) = rw e (refl, refl)
proto_plain p (sctp, v4, e) = rw e (refl, refl)
proto_plain p (sctp, v6, e) = rw e (refl, refl)

contains-append : (a b : Bytes) (c : ℕ) → contains (a ++ b) c ≡ (contains a c || contains b c)
contains-append [] b c = refl
contains-append (x ∷ a) b c = ground (arith, contains-append a b c)

slice_middle :
    (h m t : Bytes) (c : ℕ)
    → slice ((h ++ c ∷ m) ++ t) (suc (length h)) (length (h ++ c ∷ m)) ≡ ok m
unfolding slice
slice_middle h m t c =
    rw (take-length_append (h ++ c ∷ m) t, drop-suc-length h m c)
      (ground (arith, length-append h (c ∷ m), length-append (h ++ c ∷ m) t))

-- The head, the last port and the protocol of a text, whatever the scanner makes of the head.
pub parse_shape :
    (net : Net) (scan : Bytes → List Token) (h port proto : Bytes)
    → IsKnownProto proto
    → contains port b':' ≡ false
    → parse_port_spec net scan ((h ++ b':' ∷ port) ++ b'/' ∷ proto)
      ≡ (scan_parts (scan h) (start_scanning port) >>= finish_spec net proto)
unfolding parse_port_spec
parse_shape net scan h port proto known plain =
    let text = (h ++ b':' ∷ port) ++ b'/' ∷ proto in
    let tail = port ++ b'/' ∷ proto in
    let regroup : text ≡ h ++ b':' ∷ tail = append_assoc h (b':' ∷ port) (b'/' ∷ proto) in
    let slash : last_index text b'/' ≡ some (length (h ++ b':' ∷ port)) =
      last_index-append (h ++ b':' ∷ port) proto b'/' (proto_plain proto known).1 in
    let colon : last_index text b':' ≡ some (length h) = rw regroup (
      last_index-append h tail b':'
        (ground (arith, contains-append port (b'/' ∷ proto) b':', proto_plain proto known))) in
    let before : take (length h) text ≡ h = rw regroup (take-length_append h (b':' ∷ tail)) in
    rw (
      slash,
      drop-suc-length (h ++ b':' ∷ port) proto b'/',
      (validate_proto_iff proto).1 known,
      colon,
      slice_middle h port (b'/' ∷ proto) b':',
      before,
    )

pub digits-IsInner : (s : Bytes) → all is_digit s ≡ true → IsInner b':' s
digits-IsInner [] h = refl
digits-IsInner (c ∷ s) h = ground (arith, digits-IsInner s)

pub digits_plain : (s : Bytes) → all is_digit s ≡ true → contains s b':' ≡ false
digits_plain [] h = refl
digits_plain (c ∷ s) h = ground (arith, digits_plain s)

-- Characters that `ScansAddresses` speaks of.
abbrev IsScanned : Bytes → Type 0
IsScanned s = all (λ c. is_name c || is_mark c) s ≡ true

pub digits-IsScanned : (s : Bytes) → all is_digit s ≡ true → IsScanned s
digits-IsScanned [] h = refl
digits-IsScanned (c ∷ s) h = ground (arith, digits-IsScanned s)

address-IsScanned : (ip : Bytes) → IsAddress ip → IsScanned ip
address-IsScanned [] h = refl
address-IsScanned (c ∷ ip) h = ground (arith, address-IsScanned ip)

child_part : Bytes → Bytes
child_part [] = []
child_part (c ∷ ip) = b':' ∷ host (c ∷ ip)

-- The text of a port specification.
unfoldable pub format_spec : Spec → Bytes
unfolding child_part
format_spec s =
    ((host s.parent_ip ++ b':' ∷ (itoa s.parent_port ++ child_part s.child_ip))
      ++ b':' ∷ itoa s.child_port)
    ++ b'/' ∷ s.proto

-- What the format can express: addresses of address characters, that parse unless empty.
pub record IsPrintable (net : Net) (s : Spec) : Type 0 where
  pub known_proto : IsKnownProto s.proto
  pub parent_address : IsAddress s.parent_ip
  pub parent_ip_ok : IsIpOrEmpty net s.parent_ip
  pub child_address : IsAddress s.child_ip
  pub child_ip_ok : IsIpOrEmpty net s.child_ip
  pub parent_port_ok : IsPort s.parent_port
  pub child_port_ok : IsPort s.child_port

pub port_digits : (n : ℤ) → IsPort n → all is_digit (itoa n) ≡ true
port_digits n (m, e, lo, hi) = rw e (itoa_digits m)

pub port_read : (n : ℤ) → IsPort n → atoi (itoa n) ≡ some n
port_read n (m, e, lo, hi) = rw e (atoi-itoa (pos m) (omega arith))

-- Behind the address of the parent: its port, and the address of the child if there is one.
scan_port_and_child :
    {toks : List Token} (port ip : Bytes) (p : Parts)
    → all is_digit port ≡ true
    → IsAddress ip
    → p.child_ip ≡ []
    → Tokens (port ++ child_part ip) toks
    → scan_parts toks (reading p 1 b':') ≡ ok (put_text 2 ip (put_text 1 port p))
unfolding child_part scan_parts on_token
scan_port_and_child port [] p d a e t =
    scan_rest p 1 b':' (omega arith) (inl refl) (digits-IsInner port d) (rw append-nil at t)
    ∙ rw append-nil
scan_port_and_child port (c ∷ ip) p d a e t =
    let (more, ts, q) =
      scan_part port (host (c ∷ ip)) b':' p 1 b':' (omega arith) (inl refl) (digits-IsInner port d)
        refl t refl in
    q ∙ scan_last_host (c ∷ ip) (put_text 1 port p) 2 (omega arith) a ts

pub host-IsScanned : (ip : Bytes) → IsAddress ip → IsScanned (host ip)
host-IsScanned ip a = elim (Bool-cases (contains ip b':')) [
  | inl bracket ↦
      rw (bracket, all-append (λ c. is_name c || is_mark c) ip (b']' ∷ []), address-IsScanned ip a)
  | inr bare ↦ rw bare (address-IsScanned ip a)
]

pub IsScanned-join : (a b : Bytes) → IsScanned a → IsScanned b → IsScanned (a ++ b':' ∷ b)
IsScanned-join a b h k = rw (all-append (λ c. is_name c || is_mark c) a (b':' ∷ b), h) k

child_part-IsScanned :
    (port ip : Bytes) → IsScanned port → IsAddress ip → IsScanned (port ++ child_part ip)
unfolding child_part
child_part-IsScanned port [] h a = rw append-nil h
child_part-IsScanned port (c ∷ ip) h a =
    IsScanned-join port (host (c ∷ ip)) h (host-IsScanned (c ∷ ip) a)

-- The parts of a text with the head of a printable specification.
scan_head :
    (net : Net) (scan : Bytes → List Token) (s : Spec) (port : Bytes)
    → ScansAddresses scan
    → IsPrintable net s
    → scan_parts
        (scan (host s.parent_ip ++ b':' ∷ (itoa s.parent_port ++ child_part s.child_ip)))
        (start_scanning port)
      ≡ ok (record {
        parent_ip = s.parent_ip;
        parent_port = itoa s.parent_port;
        child_ip = s.child_ip;
        child_port = port;
      })
scan_head net scan s port law v =
    let digits = port_digits s.parent_port v.parent_port_ok in
    let tail = itoa s.parent_port ++ child_part s.child_ip in
    let toks = law (host s.parent_ip ++ b':' ∷ tail) (
      IsScanned-join (host s.parent_ip) tail (host-IsScanned s.parent_ip v.parent_address) (
        child_part-IsScanned (itoa s.parent_port) s.child_ip
          (digits-IsScanned (itoa s.parent_port) digits) v.child_address)) in
    let (more, ts, q) =
      scan_host s.parent_ip (no_parts port) 0 (omega arith) v.parent_address tail toks in
    q ∙ scan_port_and_child (itoa s.parent_port) s.child_ip _ digits v.child_address refl ts

-- ParsePortSpec returns the specification whose text it is given: protocol known, ports in
-- 1..65535, addresses empty or parsing, IPv6 addresses in brackets, the child's address left out
-- if empty; for every scanner that makes tokens of a text of address characters with nothing
-- lost, the colon and the brackets being tokens of their own.
pub parse-format :
    (net : Net) (scan : Bytes → List Token) (s : Spec)
    → ScansAddresses scan
    → IsPrintable net s
    → parse_port_spec net scan (format_spec s) ≡ ok s
unfolding format_spec finish_spec
parse-format net scan s law v =
    parse_shape net scan _ (itoa s.child_port) s.proto v.known_proto
      (digits_plain (itoa s.child_port) (port_digits s.child_port v.child_port_ok))
    ∙ rw (
      scan_head net scan s (itoa s.child_port) law v,
      not_bad_ip net s.parent_ip v.parent_ip_ok,
      not_bad_ip net s.child_ip v.child_ip_ok,
      port_read s.parent_port v.parent_port_ok,
      port_read s.child_port v.child_port_ok,
    )
