-- ===== src/BuiltinChild.antt =====
-- pkg/port/builtin/child/child.go: the child side of the port driver "builtin", which dials the
-- target of a connection and sends its file descriptor to the parent. The requests and the
-- parent's retries are in Message.
pub mod Message
pub mod Dial
pub mod Examples
use rootlesskit.Base.{
  any, if◌then◌else◌, ℤ, pos, eq_ℤ, ℕ, Bool, true, false, not, ◌&&◌, Option, none, some, List, [],
  ◌∷◌, Result, ok, err, ◌>>=◌, ◌>>◌, reject_if, or_fail,
}
use rootlesskit.Text.{Bytes, codes, str_eq, is_empty}
use rootlesskit.Text.Search.{trim_suffix}
use rootlesskit.Text.Decimal.{itoa}
use rootlesskit.Net.{Net, is_loopback}

-- `msg.Request`.
pub record Request : Type 0 where
  pub type_name : Bytes
  pub proto : Bytes
  pub ip : Bytes
  pub port : ℤ
  pub parent_ip : Bytes
  pub host_gateway_ip : Bytes
  pub source_ip : Bytes
  pub source_port : ℤ

-- `childDriver`: `routing` is the result of routingSetup once it has run, `warned` whether
-- routingWarn has.
pub record Child : Type 0 where
  pub source_ip_transparent : Bool
  pub routing : Option Bool
  pub warned : Bool

pub data Error : Type 0 where
  no_socket_path no_ready_pipe_path dial_failed no_file send_failed no_reply : Error
  unknown_type unknown_proto invalid_ip : Bytes → Error

-- One call of `unix.Sendmsg`.
pub data Sending : Type 0 where
  sent interrupted broken : Sending

-- What the driver calls: net.JoinHostPort, both dials (protocol, address; for the transparent one
-- the source too), the file of a connection, whether the file of the request's socket can be had,
-- the results of Sendmsg, of the search of iptables and of listing its mangle table, and of writing the reply to "init".
pub record System : Type 0 where
  pub join_host_port : Bytes → Bytes → Bytes
  pub dial : Bytes → Bytes → Option ℕ
  pub transparent_dial : Bytes → Bytes → Bytes → ℤ → Option ℕ
  pub file_of : ℕ → Option ℕ
  pub has_own_file : Bool
  pub sends : List Sending
  pub has_iptables : Bool
  pub has_mangle : Bool
  pub reply_written : Bool

-- The start of `RunChildDriver`, on the values of the opaque map.
unfoldable pub start_child : Bytes → Bytes → Bytes → Result Error Child
start_child transparent socket_path ready_pipe_path = do
  reject_if (is_empty socket_path) no_socket_path
  reject_if (is_empty ready_pipe_path) no_ready_pipe_path
  ok (record {
    source_ip_transparent = str_eq transparent (codes "true");
    routing = none;
    warned = false;
  })

-- The switch on the protocol.
abbrev pub dialled_protos : List Bytes
dialled_protos =
    codes "tcp" ∷ codes "tcp4" ∷ codes "tcp6" ∷ codes "udp" ∷ codes "udp4" ∷ codes "udp6" ∷ []

unfoldable pub check_proto : Bytes → Result Error (Unit {0})
check_proto proto = reject_if (not (any (str_eq proto) dialled_protos)) (unknown_proto proto)

-- `dialProto`.
unfoldable pub dial_proto : Bytes → Bytes
dial_proto proto = trim_suffix (trim_suffix proto (codes "6")) (codes "4")

-- The address to dial.
unfoldable pub target_ip : Net → Request → Result Error Bytes
target_ip net req =
    if is_empty req.ip
    then ok (
        if not (is_empty req.parent_ip)
          && not (str_eq req.parent_ip req.host_gateway_ip)
          && not (str_eq req.parent_ip (codes "0.0.0.0"))
        then req.parent_ip
        else codes "127.0.0.1")
    else (or_fail (net.parse_ip req.ip) (invalid_ip req.ip) >>= λ p. ok (net.ip_string p))

-- `net.ParseIP(s).IsLoopback()`; `nil` is no loopback address.
unfoldable pub is_loopback_text : Net → Bytes → Bool
is_loopback_text net s = elim (net.parse_ip s) [ none ↦ false | some ip ↦ is_loopback ip ]

unfoldable pub wants_transparent : Net → Child → Request → Bool
wants_transparent net c req =
    c.source_ip_transparent
    && not (is_empty req.source_ip)
    && not (eq_ℤ req.source_port (pos 0))
    && str_eq (dial_proto req.proto) (codes "tcp")
    && not (is_loopback_text net req.source_ip)

-- `setupTransparentRouting`; a command that fails is only logged.
unfoldable pub setup_transparent_routing : System → Bool
setup_transparent_routing sys = sys.has_iptables && sys.has_mangle

-- `routingSetup.Do(...)`.
unfoldable pub setup_once : System → Child → Child × Bool
setup_once sys c = elim c.routing [
  | some ready ↦ (c, ready)
  | none ↦ let ready = setup_transparent_routing sys in (record c { routing = some ready }, ready)
]

dial_transparent : System → Request → Bytes → Child × Bool → Child × Option ℕ
dial_transparent sys req addr (c, ready) =
    if ready
    then (c, sys.transparent_dial (dial_proto req.proto) addr req.source_ip req.source_port)
    else (record c { warned = true }, none)

-- The connection, and whether one is there before the fallback.
unfoldable pub try_transparent : Net → System → Child → Request → Bytes → Child × Option ℕ
unfolding dial_transparent
try_transparent net sys c req addr =
    if wants_transparent net c req
    then dial_transparent sys req addr (setup_once sys c)
    else (c, none)

-- The loop over Sendmsg; a list without an end that is not EINTR stands for a call that blocks.
unfoldable pub send_fd : List Sending → Result Error (Unit {0})
send_fd [] = err no_reply
send_fd (sent ∷ rest) = ok tt
send_fd (interrupted ∷ rest) = send_fd rest
send_fd (broken ∷ rest) = err send_failed

-- From `fallback`: the file descriptor that the parent gets.
unfoldable pub finish_connect : System → Request → Bytes → Option ℕ → Result Error ℕ
finish_connect sys req addr conn = do
  c ← elim conn [
    | some c ↦ ok c
    | none ↦ or_fail (sys.dial (dial_proto req.proto) addr) dial_failed
  ]
  fd ← or_fail (sys.file_of c) no_file
  reject_if (not sys.has_own_file) no_file
  send_fd sys.sends
  ok fd

abbrev pub target_addr : System → Request → Bytes → Bytes
target_addr sys req ip = sys.join_host_port ip (itoa req.port)

connect_at : Net → System → Child → Request → Result Error Bytes → Child × Result Error ℕ
connect_at net sys c req (err e) = (c, err e)
connect_at net sys c req (ok ip) =
    let (c', conn) = try_transparent net sys c req (target_addr sys req ip) in
    (c', finish_connect sys req (target_addr sys req ip) conn)

-- `handleConnectRequest`.
unfoldable pub handle_connect_request : Net → System → Child → Request → Child × Result Error ℕ
unfolding connect_at
handle_connect_request net sys c req =
    connect_at net sys c req (check_proto req.proto >> target_ip net req)

-- `routine`, behind the decoding of the request and, where the network namespace is detached, in
-- that namespace; the reply to "init" holds no file descriptor.
unfoldable pub routine : Net → System → Child → Request → Child × Result Error (Option ℕ)
routine net sys c req =
    if str_eq req.type_name (codes "init")
    then (c, (reject_if (not sys.reply_written) send_failed >> ok none))
    else if str_eq req.type_name (codes "connect")
    then (let (c', r) = handle_connect_request net sys c req in (c', (r >>= λ fd. ok (some fd))))
    else (c, err (unknown_type req.type_name))
