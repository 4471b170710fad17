-- ===== src/Port/Validate/Accepts.antt =====
-- Which port specifications `ValidatePortSpec` accepts, said without its code.
use rootlesskit.Base.{
  any, All, Bool-cases, Option-cases, ℤ, pos, negsuc, eq_ℤ_iff, ℕ, ◌≤◌, ◌≡◌, refl, sym, subst, ◌↔◌,
  ◌⊎◌, inl, inr, true, false, some, List, [], ◌∷◌, ◌++◌, arith, ok,
}
use rootlesskit.Text.{Bytes, codes, str_eq, str_eq_iff}
use rootlesskit.Net.{Net, is_bad_ip}
use rootlesskit.Port.{Spec, Status}
use rootlesskit.Port.Table.{Table}
use rootlesskit.Port.Validate.{
  validate_proto, is_conflict, find_conflict, validate_port_spec, is_bad_port, protos,
}

-- A protocol is a transport with an optional address family.
pub data Transport : Type 0 where
  tcp udp sctp : Transport

pub data Family : Type 0 where
  any_family v4 v6 : Family

abbrev pub transport_name : Transport → Bytes
transport_name tcp = codes "tcp"
transport_name udp = codes "udp"
transport_name sctp = codes "sctp"

abbrev pub family_digit : Family → Bytes
family_digit any_family = []
family_digit v4 = codes "4"
family_digit v6 = codes "6"

abbrev pub IsKnownProto : Bytes → Type 0
IsKnownProto p = (t : Transport) × (f : Family) × (p ≡ transport_name t ++ family_digit f)

-- Empty, or an address that parses.
abbrev pub IsIpOrEmpty : Net → Bytes → Type 0
IsIpOrEmpty net s = (s ≡ []) ⊎ ((ip : Bytes) × (net.parse_ip s ≡ some ip))

abbrev pub IsPort : ℤ → Type 0
IsPort n = (m : ℕ) × (n ≡ pos m) × (1 ≤ m) × (m ≤ 65535)

-- The same protocol on the same address of the parent.
abbrev pub SameAddress : Spec → Spec → Type 0
SameAddress a b =
    (a.proto ≡ b.proto) × (a.parent_ip ≡ b.parent_ip) × (a.parent_port ≡ b.parent_port)

abbrev pub HasNoConflict : Spec → Table Status → Type 0
HasNoConflict spec ports = All (λ (e : ℤ × Status). ¬ SameAddress e.1.spec spec) ports

pub record IsAccepted (net : Net) (spec : Spec) (ports : Table Status) : Type 0 where
  pub known_proto : IsKnownProto spec.proto
  pub parent_ip_ok : IsIpOrEmpty net spec.parent_ip
  pub child_ip_ok : IsIpOrEmpty net spec.child_ip
  pub parent_port_ok : IsPort spec.parent_port
  pub child_port_ok : IsPort spec.child_port
  pub no_conflict : HasNoConflict spec ports

known_of_any :
    (p : Bytes) (ps : List Bytes) → All IsKnownProto ps → any (str_eq p) ps ≡ true → IsKnownProto p
known_of_any p [] k h = absurd (ground arith)
known_of_any p (x ∷ ps) k h = elim (Bool-cases (str_eq p x)) [
  | inl same ↦ subst IsKnownProto (sym ((str_eq_iff p x).0 same)) k.0
  | inr other ↦ known_of_any p ps k.1 (ground arith)
]

protos-known : All IsKnownProto protos
protos-known = (
  (tcp, any_family, refl),
  (
    (tcp, v4, refl),
    (
      (tcp, v6, refl),
      (
        (udp, any_family, refl),
        (
          (udp, v4, refl),
          ((udp, v6, refl), ((sctp, any_family, refl), ((sctp, v4, refl), ((sctp, v6, refl), tt)))),
        ),
      ),
    ),
  ),
)

proto_known : (p : Bytes) → validate_proto p ≡ ok tt → IsKnownProto p
unfolding validate_proto
proto_known p h = known_of_any p protos protos-known (ground arith)

known_listed :
    (t : Transport) (f : Family) → validate_proto (transport_name t ++ family_digit f) ≡ ok tt
unfolding validate_proto
known_listed tcp any_family = refl
known_listed tcp v4 = refl
known_listed tcp v6 = refl
known_listed udp any_family = refl
known_listed udp v4 = refl
known_listed udp v6 = refl
known_listed sctp any_family = refl
known_listed sctp v4 = refl
known_listed sctp v6 = refl

pub validate_proto_iff : (p : Bytes) → (validate_proto p ≡ ok tt) ↔ IsKnownProto p
validate_proto_iff p = (proto_known p, λ (t, f, e). rw e (known_listed t f))

ip_ok : (net : Net) (s : Bytes) → is_bad_ip net s ≡ false → IsIpOrEmpty net s
ip_ok net [] h = inl refl
ip_ok net (c ∷ s) h = ground (arith, Option-cases (net.parse_ip (c ∷ s)))

pub not_bad_ip : (net : Net) (s : Bytes) → IsIpOrEmpty net s → is_bad_ip net s ≡ false
not_bad_ip net [] h = refl
not_bad_ip net (c ∷ s) h = ground arith

IsPort-ok : (n : ℤ) → is_bad_port n ≡ false → IsPort n
IsPort-ok (pos m) h = (m, refl, ground arith, ground arith)
IsPort-ok (negsuc m) h = absurd (ground arith)

not_bad_port : (n : ℤ) → IsPort n → is_bad_port n ≡ false
not_bad_port n h = ground arith

is_conflict_iff : (a b : Spec) → (is_conflict a b ≡ true) ↔ SameAddress a b
unfolding is_conflict
is_conflict_iff a b = ground (
  arith,
  str_eq_iff a.proto b.proto,
  str_eq_iff a.parent_ip b.parent_ip,
  eq_ℤ_iff a.parent_port b.parent_port,
)

pub no_conflict_iff :
    (spec : Spec) (ports : Table Status)
    → (find_conflict spec ports ≡ ok tt) ↔ HasNoConflict spec ports
unfolding find_conflict
no_conflict_iff spec [] = (λ _. tt, λ _. refl)
no_conflict_iff spec ((id, st) ∷ ports) =
    ground (arith, is_conflict_iff st.spec spec, no_conflict_iff spec ports)

-- Each check passed.
checks_passed :
    (net : Net) (spec : Spec) (ports : Table Status)
    → validate_port_spec net spec ports ≡ ok tt
    → (validate_proto spec.proto ≡ ok tt)
      × (is_bad_ip net spec.parent_ip ≡ false)
      × (is_bad_ip net spec.child_ip ≡ false)
      × (is_bad_port spec.parent_port ≡ false)
      × (is_bad_port spec.child_port ≡ false)
      × (find_conflict spec ports ≡ ok tt)
unfolding validate_port_spec
checks_passed net spec ports h =
    (ground arith, ground arith, ground arith, ground arith, ground arith, ground arith)

accepted :
    (net : Net) (spec : Spec) (ports : Table Status)
    → validate_port_spec net spec ports ≡ ok tt
    → IsAccepted net spec ports
accepted net spec ports h =
    let (p, pip, cip, pp, cp, c) = checks_passed net spec ports h in
    record {
      known_proto = (validate_proto_iff spec.proto).0 p;
      parent_ip_ok = ip_ok net spec.parent_ip pip;
      child_ip_ok = ip_ok net spec.child_ip cip;
      parent_port_ok = IsPort-ok spec.parent_port pp;
      child_port_ok = IsPort-ok spec.child_port cp;
      no_conflict = (no_conflict_iff spec ports).0 c;
    }

passes :
    (net : Net) (spec : Spec) (ports : Table Status)
    → IsAccepted net spec ports
    → validate_port_spec net spec ports ≡ ok tt
unfolding validate_port_spec
passes net spec ports v =
    rw
      (
        (validate_proto_iff spec.proto).1 v.known_proto,
        not_bad_ip net spec.parent_ip v.parent_ip_ok,
        not_bad_ip net spec.child_ip v.child_ip_ok,
        not_bad_port spec.parent_port v.parent_port_ok,
        not_bad_port spec.child_port v.child_port_ok,
      )
      ((no_conflict_iff spec ports).1 v.no_conflict)

-- ValidatePortSpec succeeds exactly on the specifications with a known protocol, addresses that
-- are empty or parse, both ports in 1..65535, and no entry of the table with the same protocol,
-- parent address and parent port; the table may be visited in any order.
pub validate_port_spec_iff :
    (net : Net) (spec : Spec) (ports : Table Status)
    → (validate_port_spec net spec ports ≡ ok tt) ↔ IsAccepted net spec ports
validate_port_spec_iff net spec ports = (accepted net spec ports, passes net spec ports)
