-- ===== src/Port/Validate.antt =====
-- pkg/port/portutil/portutil.go: `ValidatePortSpec` and `validateProto`.
pub mod Accepts
use rootlesskit.Base.{
  any, if◌then◌else◌, ℤ, pos, leb_ℤ, ltb_ℤ, eq_ℤ, Bool, not, ◌&&◌, ◌||◌, List, [], ◌∷◌, Result, ok,
  err, ◌>>=◌, ◌>>◌, reject_if,
}
use rootlesskit.Text.{Bytes, codes, str_eq, str_eq_iff}
use rootlesskit.Net.{Net, is_bad_ip}
use rootlesskit.Port.{Spec, Status}
use rootlesskit.Port.Table.{Table}

pub data Error : Type 0 where
  unknown_proto : Bytes → Error
  invalid_parent_ip : Bytes → Error
  invalid_child_ip : Bytes → Error
  invalid_parent_port : ℤ → Error
  invalid_child_port : ℤ → Error
  conflict : ℤ → Error

-- The cases of the switch.
abbrev pub protos : List Bytes
protos =
    codes "tcp"
    ∷ codes "tcp4"
    ∷ codes "tcp6"
    ∷ codes "udp"
    ∷ codes "udp4"
    ∷ codes "udp6"
    ∷ codes "sctp"
    ∷ codes "sctp4"
    ∷ codes "sctp6"
    ∷ []

unfoldable pub validate_proto : Bytes → Result Error (Unit {0})
unfolding str_eq
validate_proto proto = reject_if (not (any (str_eq proto) protos)) (unknown_proto proto)

-- `port <= 0 || port > 65535`.
abbrev pub is_bad_port : ℤ → Bool
is_bad_port n = leb_ℤ n (pos 0) || ltb_ℤ (pos 65535) n

-- `sameProto && sameParent`.
unfoldable pub is_conflict : Spec → Spec → Bool
unfolding str_eq
is_conflict sp spec =
    let same_proto = str_eq sp.proto spec.proto in
    let same_parent = str_eq sp.parent_ip spec.parent_ip && eq_ℤ sp.parent_port spec.parent_port in
    same_proto && same_parent

unfoldable pub find_conflict : Spec → Table Status → Result Error (Unit {0})
unfolding is_conflict
find_conflict spec [] = ok tt
find_conflict spec ((id, p) ∷ rest) =
    if is_conflict p.spec spec then err (conflict id) else find_conflict spec rest

unfoldable pub validate_port_spec : Net → Spec → Table Status → Result Error (Unit {0})
unfolding validate_proto find_conflict
validate_port_spec net spec existing_ports = do
  validate_proto spec.proto
  reject_if (is_bad_ip net spec.parent_ip) (invalid_parent_ip spec.parent_ip)
  reject_if (is_bad_ip net spec.child_ip) (invalid_child_ip spec.child_ip)
  reject_if (is_bad_port spec.parent_port) (invalid_parent_port spec.parent_port)
  reject_if (is_bad_port spec.child_port) (invalid_child_port spec.child_port)
  find_conflict spec existing_ports
