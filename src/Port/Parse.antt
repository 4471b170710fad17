-- ===== src/Port/Parse.antt =====
-- pkg/port/portutil/portutil.go: `ParsePortSpec`. Go's `text/scanner` is a parameter, the function
-- from a text to its tokens up to the end; `panic` stands for a slice or index out of range.
pub mod Safety
pub mod Scan
pub mod Host
pub mod RoundTrip
pub mod Extra
use rootlesskit.Base.{
  length, take, drop, ltb, leb, ◌==◌, if◌then◌else◌, ℕ, zero, suc, ◌+◌, Bool, true, false, ◌&&◌,
  List, [], ◌∷◌, ◌++◌, Result, ok, err, ◌>>=◌, ◌>>◌, reject_if, or_fail, wrap_err,
}
use rootlesskit.Text.{Bytes}
use rootlesskit.Text.Search.{last_index}
use rootlesskit.Text.Decimal.{atoi}
use rootlesskit.Net.{Net, is_bad_ip}
use rootlesskit.Port.{Spec}
use rootlesskit.Port.Validate.{validate_proto}

pub data Error : Type 0 where
  missing_proto invalid_proto unexpected_spec unexpected_parent_ip unexpected_child_ip : Error
  bad_parent_port bad_child_port panic : Error

-- A token is a character of its own, or an identifier, number or literal with its text.
pub data Token : Type 0 where
  rune : ℕ → Token
  word : Bytes → Token

-- `s.TokenText()`.
abbrev pub token_text : Token → Bytes
token_text (rune c) = c ∷ []
token_text (word w) = w

-- `tok == c` at a character `c`.
abbrev pub is_rune : Token → ℕ → Bool
is_rune (rune c) d = c == d
is_rune (word w) d = false

-- `parts`, without `parts[proto]`, which the loop does not reach.
pub record Parts : Type 0 where
  pub parent_ip : Bytes
  pub parent_port : Bytes
  pub child_ip : Bytes
  pub child_port : Bytes

-- `parts[index] += text`.
unfoldable pub add_text : ℕ → Bytes → Parts → Result Error Parts
add_text zero t p = ok (record p { parent_ip = p.parent_ip ++ t })
add_text (suc zero) t p = ok (record p { parent_port = p.parent_port ++ t })
add_text (suc (suc zero)) t p = ok (record p { child_ip = p.child_ip ++ t })
add_text (suc (suc (suc zero))) t p = ok (record p { child_port = p.child_port ++ t })
add_text (suc (suc (suc (suc n)))) t p = err panic

-- The variables of the loop; `skip` is set while the token after a closing bracket is due.
pub record Scanning : Type 0 where
  pub parts : Parts
  pub index : ℕ
  pub delimiter : ℕ
  pub skip : Bool

-- The body of the loop at a token that is not skipped.
unfoldable pub on_token : Token → Scanning → Result Error Scanning
unfolding add_text
on_token tok s =
    if ltb 3 s.index
    then err unexpected_spec
    else if is_rune tok b'['
    then ok (record s { delimiter = b']' })
    else if is_rune tok s.delimiter
    then (if s.delimiter == b']'
        then ok (record s { delimiter = b':'; skip = true; index = s.index + 1 })
        else ok (record s { index = s.index + 1 }))
    else (add_text s.index (token_text tok) s.parts >>= λ p. ok (record s { parts = p }))

unfoldable pub scan_parts : List Token → Scanning → Result Error Parts
unfolding on_token
scan_parts [] s = ok s.parts
scan_parts (tok ∷ toks) s =
    (if s.skip then ok (record s { skip = false }) else on_token tok s) >>= scan_parts toks

-- `s[lo:hi]`.
unfoldable pub slice : Bytes → ℕ → ℕ → Result Error Bytes
slice s lo hi = if leb lo hi && leb hi (length s) then ok (drop lo (take hi s)) else err panic

abbrev pub no_parts : Bytes → Parts
no_parts port = record { parent_ip = []; parent_port = []; child_ip = []; child_port = port }

abbrev pub start_scanning : Bytes → Scanning
start_scanning port = record { parts = no_parts port; index = 0; delimiter = b':'; skip = false }

-- What follows the loop.
unfoldable pub finish_spec : Net → Bytes → Parts → Result Error Spec
finish_spec net proto p = do
  reject_if (is_bad_ip net p.parent_ip) unexpected_parent_ip
  reject_if (is_bad_ip net p.child_ip) unexpected_child_ip
  parent_port ← or_fail (atoi p.parent_port) bad_parent_port
  child_port ← or_fail (atoi p.child_port) bad_child_port
  ok (record {
    proto = proto;
    parent_ip = p.parent_ip;
    parent_port = parent_port;
    child_port = child_port;
    child_ip = p.child_ip;
  })

module _ (net : Net) (scan : Bytes → List Token) where
  unfoldable pub parse_port_spec : Bytes → Result Error Spec
  parse_port_spec port_spec = do
    proto_pos ← or_fail (last_index port_spec b'/') missing_proto
    let proto = drop (suc proto_pos) port_spec
    wrap_err (λ _. invalid_proto) (validate_proto proto)
    port_pos ← or_fail (last_index port_spec b':') unexpected_spec
    child_port ← slice port_spec (suc port_pos) proto_pos
    parts ← scan_parts (scan (take port_pos port_spec)) (start_scanning child_port)
    finish_spec net proto parts
