-- ===== src/UdpProxy.antt =====
-- pkg/port/builtin/parent/udp/udpproxy/udp_proxy.go: the table of connections of the UDP proxy. The
-- connections are numbered in the order in which they are dialled; each has its reply loop.
pub mod Table
pub mod Replies
pub mod Examples
use rootlesskit.Base.{
  All, length, take, drop, ◌==◌, if◌then◌else◌, ℤ, eq_ℤ, ℕ, suc, ◌+◌, ◌*◌, ◌<◌, ◌≡◌, Bool, true,
  false, ◌&&◌, Option, none, some,
}
use rootlesskit.Text.{Bytes}
use rootlesskit.IpUtils.{uint32}

-- `net.UDPAddr`.
pub record Addr : Type 0 where
  pub ip : Bytes
  pub port : ℤ
  pub zone : Bytes

-- `connTrackKey`.
pub record Key : Type 0 where
  pub ip_high : ℕ
  pub ip_low : ℕ
  pub port : ℤ

abbrev join : Option ℕ → Option ℕ → Option ℕ
join (some a) (some b) = some (a * 4294967296 + b)
join _ _ = none

-- `binary.BigEndian.Uint64(b)`; it panics on a slice that is too short.
unfoldable pub uint64 : Bytes → Option ℕ
uint64 b = join (uint32 (take 4 b)) (uint32 (drop 4 b))

abbrev pub v4_key : ℤ → Option ℕ → Option Key
v4_key port (some low) = some (record { ip_high = 0; ip_low = low; port = port })
v4_key port none = none

abbrev pub v6_key : ℤ → Option ℕ → Option ℕ → Option Key
v6_key port (some high) (some low) = some (record { ip_high = high; ip_low = low; port = port })
v6_key port _ _ = none

-- `newConnTrackKey`, which leaves out the zone; a panic is `none`.
unfoldable pub conn_track_key : Addr → Option Key
conn_track_key a =
    if length a.ip == 4
    then v4_key a.port (uint32 a.ip)
    else v6_key a.port (uint64 (take 8 a.ip)) (uint64 (drop 8 a.ip))

abbrev pub key_eq : Key → Key → Bool
key_eq k l = k.ip_high == l.ip_high && k.ip_low == l.ip_low && eq_ℤ k.port l.port

-- The table of connections, the reply loop of each connection by its client's address, and the
-- number of connections that have been dialled.
pub record Proxy : Type 0 where
  pub table : Key → Option ℕ
  pub loops : ℕ → Option Addr
  pub dialled : ℕ

-- `Run` makes the table.
abbrev pub new_proxy : Proxy
new_proxy = record { table = λ k. none; loops = λ c. none; dialled = 0 }

-- A datagram is written to a connection, is dropped since the backend cannot be dialled, or the
-- proxy panics.
pub data Outcome : Type 0 where
  written : ℕ → Outcome
  dropped panicked : Outcome

-- `BackendDial`, the entry in the table, and `go proxy.replyLoop`.
unfoldable pub open_conn : Addr → Key → Proxy → Proxy
open_conn a k p = record {
  table = λ l. if key_eq k l then some p.dialled else p.table l;
  loops = λ c. if p.dialled == c then some a else p.loops c;
  dialled = suc p.dialled;
}

find_conn : Bool → Addr → Key → Option ℕ → Proxy → Proxy × Outcome
find_conn dials a k (some c) p = (p, written c)
find_conn true a k none p = (open_conn a k p, written p.dialled)
find_conn false a k none p = (p, dropped)

at_key : Bool → Addr → Option Key → Proxy → Proxy × Outcome
unfolding find_conn
at_key dials a none p = (p, panicked)
at_key dials a (some k) p = find_conn dials a k (p.table k) p

-- One round of `Run`, for a datagram from an address; the flag tells whether the backend can be
-- dialled.
unfoldable pub on_datagram : Bool → Addr → Proxy → Proxy × Outcome
unfolding at_key
on_datagram dials a p = at_key dials a (conn_track_key a) p

drop_key : ℕ → Option Key → Proxy → Proxy
drop_key c none p = p
drop_key c (some k) p = record p {
  table = λ l. if key_eq k l then none else p.table l;
  loops = λ d. if c == d then none else p.loops d;
}

drop_conn : ℕ → Option Addr → Proxy → Proxy
unfolding drop_key
drop_conn c none p = p
drop_conn c (some a) p = drop_key c (conn_track_key a) p

-- The end of the reply loop of a connection.
unfoldable pub end_loop : ℕ → Proxy → Proxy
unfolding drop_conn
end_loop c p = drop_conn c (p.loops c) p

-- The addresses of one listener have one length, and the zone of an address is that of its IP: no
-- two clients differ in the zone alone.
pub record IsClient (len : ℕ) (zone_of : Bytes → Bytes) (a : Addr) : Type 0 where
  pub ip_length : length a.ip ≡ len
  pub ip_bytes : All (λ b. b < 256) a.ip
  pub own_zone : a.zone ≡ zone_of a.ip

-- Rounds of `Run` and ends of reply loops, in any order.
pub data Reach (len : ℕ) (zone_of : Bytes → Bytes) : Proxy → Type 0 where
  started : Reach len zone_of new_proxy
  datagram :
      {p : Proxy}
      → Reach len zone_of p
      → (dials : Bool) (a : Addr) → IsClient len zone_of a
      → Reach len zone_of (on_datagram dials a p).0
  ended : {p : Proxy} → Reach len zone_of p → (c : ℕ) → Reach len zone_of (end_loop c p)
