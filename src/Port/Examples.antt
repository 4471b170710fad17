-- ===== src/Port/Examples.antt =====
-- Tests of the port specifications, with a resolver of three addresses and a scanner that makes a
-- token of each character.
use rootlesskit.Base.{
  if◌then◌else◌, Bool-cases, pos, ◌≡◌, refl, ◌≢◌, ◌↔◌, inl, inr, Option, none, some, List, [], ◌∷◌,
  map, arith, ok, err,
}
use rootlesskit.Text.{Bytes, codes, str_eq}
use rootlesskit.Text.Search.{last_index}
use rootlesskit.Text.Decimal.{atoi, itoa}
use rootlesskit.Net.{Net}
use rootlesskit.Port.{Spec, Status}
use rootlesskit.Port.Table.{Table}
use rootlesskit.Port.Validate.{validate_port_spec, conflict, validate_proto, find_conflict}
use rootlesskit.Port.Validate.Accepts.{IsAccepted, tcp, any_family, validate_port_spec_iff}
use rootlesskit.Port.Parse.{Token, rune, parse_port_spec, slice, scan_parts, finish_spec, panic}
use rootlesskit.Port.Parse.Safety.{parse_port_spec-ne-panic}
use rootlesskit.Port.Parse.Scan.{done, mark, name, ScansAddresses, is_mark}
use rootlesskit.Port.Parse.RoundTrip.{format_spec, IsPrintable, parse-format}

abbrev pub loopback : Bytes
loopback = 0 ∷ 0 ∷ 0 ∷ 0 ∷ 0 ∷ 0 ∷ 0 ∷ 0 ∷ 0 ∷ 0 ∷ 255 ∷ 255 ∷ 127 ∷ 0 ∷ 0 ∷ 1 ∷ []

abbrev guest : Bytes
guest = 0 ∷ 0 ∷ 0 ∷ 0 ∷ 0 ∷ 0 ∷ 0 ∷ 0 ∷ 0 ∷ 0 ∷ 255 ∷ 255 ∷ 10 ∷ 0 ∷ 2 ∷ 100 ∷ []

abbrev loopback_v6 : Bytes
loopback_v6 = 0 ∷ 0 ∷ 0 ∷ 0 ∷ 0 ∷ 0 ∷ 0 ∷ 0 ∷ 0 ∷ 0 ∷ 0 ∷ 0 ∷ 0 ∷ 0 ∷ 0 ∷ 1 ∷ []

unfoldable pub resolve : Bytes → Option Bytes
unfolding str_eq
resolve s =
    if str_eq s (codes "127.0.0.1")
    then some loopback
    else if str_eq s (codes "10.0.2.100")
    then some guest
    else if str_eq s (codes "::1")
    then some loopback_v6
    else none

abbrev pub net : Net
net = record { parse_ip = resolve; ip_string = λ ip. codes "10.0.2.100" }

abbrev pub char_scan : Bytes → List Token
char_scan = map rune

char_scan-law : ScansAddresses char_scan
char_scan-law [] h = done
char_scan-law (c ∷ s) h = elim (Bool-cases (is_mark c)) [
  | inl at_mark ↦ mark c at_mark (char_scan-law s (ground arith))
  | inr plain ↦ name (rune c) (ground arith) (ground arith) refl (char_scan-law s (ground arith))
]

abbrev pub web : Spec
web = record {
  proto = codes "tcp";
  parent_ip = codes "127.0.0.1";
  parent_port = pos 8080;
  child_port = pos 80;
  child_ip = codes "10.0.2.100";
}

abbrev web_v6 : Spec
web_v6 = record web { parent_ip = codes "::1" }

web_v6-text : format_spec web_v6 ≡ codes "[::1]:8080:10.0.2.100:80/tcp"
unfolding format_spec itoa
web_v6-text = refl

web_v6-IsPrintable : IsPrintable net web_v6
unfolding resolve
web_v6-IsPrintable = record {
  known_proto = (tcp, any_family, refl);
  parent_address = refl;
  parent_ip_ok = inr (loopback_v6, refl);
  child_address = refl;
  child_ip_ok = inr (guest, refl);
  parent_port_ok = (8080, refl, omega arith, omega arith);
  child_port_ok = (80, refl, omega arith, omega arith);
}

parse-format_example : parse_port_spec net char_scan (format_spec web_v6) ≡ ok web_v6
parse-format_example = parse-format net char_scan web_v6 char_scan-law web_v6-IsPrintable

abbrev pub short_spec : Spec
short_spec = record {
  proto = codes "udp4";
  parent_ip = [];
  parent_port = pos 8080;
  child_port = pos 80;
  child_ip = [];
}

pub parse_short : parse_port_spec net char_scan (codes ":8080:80/udp4") ≡ ok short_spec
unfolding parse_port_spec last_index slice scan_parts finish_spec atoi validate_proto
parse_short = refl

parse_port_spec-ne-panic_example : parse_port_spec net char_scan (codes "8080/tcp:80") ≢ err panic
parse_port_spec-ne-panic_example = parse_port_spec-ne-panic net char_scan (codes "8080/tcp:80")

abbrev pub one_port : Table Status
one_port = (pos 1, record { id = pos 1; spec = record web { child_port = pos 81 } }) ∷ []

validate_port_spec_iff_example :
    (validate_port_spec net web one_port ≡ ok tt) ↔ IsAccepted net web one_port
validate_port_spec_iff_example = validate_port_spec_iff net web one_port

-- The child's port does not matter for a conflict.
validate_conflict : validate_port_spec net web one_port ≡ err (conflict (pos 1))
unfolding validate_port_spec resolve find_conflict
validate_conflict = refl
