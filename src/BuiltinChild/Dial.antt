-- ===== src/BuiltinChild/Dial.antt =====
-- The source address of the client never costs the connection, and the routing is set up once.
use rootlesskit.Base.{
  Option-cases, ℕ, ◌≡◌, Bool, true, false, Option, none, some, arith, ok, is_ok, Result-cases,
}
use rootlesskit.Text.{Bytes}
use rootlesskit.Net.{Net}
use rootlesskit.BuiltinChild.{
  Request, Child, System, check_proto, target_ip, dial_proto, target_addr, try_transparent,
  finish_connect, handle_connect_request, send_fd, setup_once,
}

abbrev pub is_some {ℓ} : {A : Type ℓ} → Option A → Bool
is_some none = false
is_some (some a) = true

finish_connect-ok :
    (sys : System) (req : Request) (addr : Bytes) (conn : ℕ) (early : Option ℕ)
    → sys.dial (dial_proto req.proto) addr ≡ some conn
    → ((n : ℕ) → is_some (sys.file_of n) ≡ true)
    → sys.has_own_file ≡ true
    → send_fd sys.sends ≡ ok tt
    → is_ok (finish_connect sys req addr early) ≡ true
unfolding finish_connect
finish_connect-ok sys req addr conn none dialled filed own sends =
    ground (arith, filed conn, Option-cases (sys.file_of conn))
finish_connect-ok sys req addr conn (some n) dialled filed own sends =
    ground (arith, filed n, Option-cases (sys.file_of n))

-- Where the target can be dialled without the client's address, every connection and the socket of
-- the request have a file, and the file descriptor can be sent, a request with a known protocol and a good address succeeds,
-- whatever becomes of the transparent dial and of its routing.
pub transparent_harmless :
    (net : Net) (sys : System) (c : Child) (req : Request) (ip : Bytes) (conn : ℕ)
    → check_proto req.proto ≡ ok tt
    → target_ip net req ≡ ok ip
    → sys.dial (dial_proto req.proto) (target_addr sys req ip) ≡ some conn
    → ((n : ℕ) → is_some (sys.file_of n) ≡ true)
    → sys.has_own_file ≡ true
    → send_fd sys.sends ≡ ok tt
    → is_ok (handle_connect_request net sys c req).1 ≡ true
unfolding handle_connect_request
transparent_harmless net sys c req ip conn known good dialled filed own sends =
    rw (known, good)
      (finish_connect-ok sys req (target_addr sys req ip) conn _ dialled filed own sends)

setup_once-routing :
    (sys : System) (c : Child) → (setup_once sys c).0.routing ≡ some (setup_once sys c).1
unfolding setup_once
setup_once-routing sys c = ground (arith, Option-cases c.routing)

-- The routing is set up at most once: a request leaves a result of the setup as it is.
pub routing_once :
    (net : Net) (sys : System) (c : Child) (req : Request) (ready : Bool)
    → c.routing ≡ some ready
    → (handle_connect_request net sys c req).0.routing ≡ some ready
unfolding handle_connect_request try_transparent setup_once
routing_once net sys c req ready done =
    ground (arith, Result-cases (check_proto req.proto), Result-cases (target_ip net req))
