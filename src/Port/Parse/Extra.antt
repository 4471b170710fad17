-- ===== src/Port/Parse/Extra.antt =====
-- What `ParsePortSpec` does with one component too many.
use rootlesskit.Base.{all, ℤ, ◌≡◌, refl, ◌∙◌, inl, true, ◌||◌, some, List, ◌∷◌, ◌++◌, arith, ok}
use rootlesskit.Text.{Bytes}
use rootlesskit.Text.Decimal.{itoa, atoi, is_digit}
use rootlesskit.Net.{Net}
use rootlesskit.Port.{Spec}
use rootlesskit.Port.Validate.Accepts.{not_bad_ip}
use rootlesskit.Port.Parse.{
  Token, no_parts, scan_parts, start_scanning, finish_spec, parse_port_spec, on_token,
}
use rootlesskit.Port.Parse.Scan.{ScansAddresses, scan_part, scan_rest, put_text, is_name, is_mark}
use rootlesskit.Port.Parse.Host.{host, scan_host}
use rootlesskit.Port.Parse.RoundTrip.{
  IsPrintable, parse_shape, digits_plain, digits-IsInner, digits-IsScanned, host-IsScanned,
  IsScanned-join, port_digits, port_read,
}

-- The text of a specification with the component `extra` between the child's address and port.
unfoldable pub format_extra : Spec → Bytes → Bytes
format_extra s extra =
    ((host s.parent_ip ++ b':' ∷ (itoa s.parent_port ++ b':' ∷ (host s.child_ip ++ b':' ∷ extra)))
      ++ b':' ∷ itoa s.child_port)
    ++ b'/' ∷ s.proto

extra_scanned :
    (net : Net) (s : Spec) (extra : Bytes)
    → IsPrintable net s
    → all is_digit extra ≡ true
    → all is_digit (itoa s.parent_port) ≡ true
    → all
        (λ c. is_name c || is_mark c)
        (host s.parent_ip
          ++ b':' ∷ (itoa s.parent_port ++ b':' ∷ (host s.child_ip ++ b':' ∷ extra)))
      ≡ true
extra_scanned net s extra v d p =
    IsScanned-join (host s.parent_ip) _ (host-IsScanned s.parent_ip v.parent_address) (
      IsScanned-join (itoa s.parent_port) _ (digits-IsScanned (itoa s.parent_port) p) (
        IsScanned-join (host s.child_ip) extra (host-IsScanned s.child_ip v.child_address)
          (digits-IsScanned extra d)))

-- The digits of the extra component are put behind those of the child's port.
scan_extra :
    (net : Net) (scan : Bytes → List Token) (s : Spec) (port extra : Bytes)
    → ScansAddresses scan
    → IsPrintable net s
    → all is_digit extra ≡ true
    → scan_parts
        (scan (
          host s.parent_ip
          ++ b':' ∷ (itoa s.parent_port ++ b':' ∷ (host s.child_ip ++ b':' ∷ extra))))
        (start_scanning port)
      ≡ ok (record {
        parent_ip = s.parent_ip;
        parent_port = itoa s.parent_port;
        child_ip = s.child_ip;
        child_port = port ++ extra;
      })
unfolding scan_parts on_token
scan_extra net scan s port extra law v d =
    let digits = port_digits s.parent_port v.parent_port_ok in
    let child = host s.child_ip ++ b':' ∷ extra in
    let toks = law _ (extra_scanned net s extra v d digits) in
    let (ts1, t1, q1) =
      scan_host s.parent_ip (no_parts port) 0 (omega arith) v.parent_address
        (itoa s.parent_port ++ b':' ∷ child) toks in
    let (ts2, t2, q2) =
      scan_part (itoa s.parent_port) child b':' (put_text 0 s.parent_ip (no_parts port)) 1 b':'
        (omega arith) (inl refl) (digits-IsInner (itoa s.parent_port) digits) refl t1 refl in
    let (ts3, t3, q3) = scan_host s.child_ip _ 2 (omega arith) v.child_address extra t2 in
    q1 ∙ q2 ∙ q3 ∙ scan_rest _ 3 b':' (omega arith) (inl refl) (digits-IsInner extra d) t3

-- A text with a component too many is not refused: if the component is of digits, ParsePortSpec
-- returns a specification whose child port is read from the last port with those digits behind.
pub parse-format_extra :
    (net : Net) (scan : Bytes → List Token) (s : Spec) (extra : Bytes) (n : ℤ)
    → ScansAddresses scan
    → IsPrintable net s
    → all is_digit extra ≡ true
    → atoi (itoa s.child_port ++ extra) ≡ some n
    → parse_port_spec net scan (format_extra s extra) ≡ ok (record s { child_port = n })
unfolding format_extra finish_spec
parse-format_extra net scan s extra n law v d read =
    parse_shape net scan _ (itoa s.child_port) s.proto v.known_proto
      (digits_plain (itoa s.child_port) (port_digits s.child_port v.child_port_ok))
    ∙ rw (
      scan_extra net scan s (itoa s.child_port) extra law v d,
      not_bad_ip net s.parent_ip v.parent_ip_ok,
      not_bad_ip net s.child_ip v.child_ip_ok,
      port_read s.parent_port v.parent_port_ok,
      read,
    )
