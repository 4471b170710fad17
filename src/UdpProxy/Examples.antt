-- ===== src/UdpProxy/Examples.antt =====
-- Tests of the UDP proxy: a client sends a datagram.
use rootlesskit.Base.{pos, ◌≡◌, refl, inl, true, some, [], ◌∷◌, arith}
use rootlesskit.Text.{Bytes, codes}
use rootlesskit.IpUtils.{uint32}
use rootlesskit.UdpProxy.{
  Addr, conn_track_key, uint64, new_proxy, open_conn, on_datagram, IsClient, started, datagram,
  written,
}
use rootlesskit.UdpProxy.Replies.{replies-return}

abbrev resolver : Addr
resolver = record { ip = 10 ∷ 0 ∷ 0 ∷ 7 ∷ []; port = pos 5353; zone = [] }

-- IPv4 addresses have no zone.
abbrev no_zone : Bytes → Bytes
no_zone ip = []

resolver-IsClient : IsClient 4 no_zone resolver
resolver-IsClient = record { ip_length = refl; ip_bytes = ground arith; own_zone = refl }

-- A first datagram opens connection 0; a second one goes there too.
replies-return_example :
    (on_datagram true resolver (on_datagram true resolver new_proxy).0).0.loops 0 ≡ some resolver
unfolding on_datagram open_conn conn_track_key uint32
replies-return_example =
    replies-return 4 no_zone (on_datagram true resolver new_proxy).0 true resolver 0
      (datagram started true resolver resolver-IsClient) (inl refl) resolver-IsClient refl

-- An IPv4 address of four bytes and an IPv6 address of sixteen can have the same key.
same_key :
    conn_track_key (record { ip = 10 ∷ 0 ∷ 0 ∷ 7 ∷ []; port = pos 53; zone = [] })
    ≡ conn_track_key (record {
      ip = 0 ∷ 0 ∷ 0 ∷ 0 ∷ 0 ∷ 0 ∷ 0 ∷ 0 ∷ 0 ∷ 0 ∷ 0 ∷ 0 ∷ 10 ∷ 0 ∷ 0 ∷ 7 ∷ [];
      port = pos 53;
      zone = [];
    })
unfolding conn_track_key uint32 uint64
same_key = refl

-- A link-local client, in a zone.
abbrev local : Bytes → Addr
local zone = record {
  ip = 254 ∷ 128 ∷ 0 ∷ 0 ∷ 0 ∷ 0 ∷ 0 ∷ 0 ∷ 0 ∷ 0 ∷ 0 ∷ 0 ∷ 0 ∷ 0 ∷ 0 ∷ 1 ∷ [];
  port = pos 53;
  zone = zone;
}

-- Replies to a client go to another one that has the same IP and port in another zone.
zones_confused :
    let first = (on_datagram true (local (codes "eth0")) new_proxy).0 in
    let (second, outcome) = on_datagram true (local (codes "eth1")) first in
    (outcome ≡ written 0) × (second.loops 0 ≡ some (local (codes "eth0")))
unfolding on_datagram open_conn conn_track_key uint32 uint64
zones_confused = (refl, refl)
