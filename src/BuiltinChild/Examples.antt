-- ===== src/BuiltinChild/Examples.antt =====
-- Tests of the child side of the builtin driver: iptables is there, the transparent dial fails.
use rootlesskit.Base.{pos, ◌≡◌, refl, true, false, none, some, [], ◌∷◌, ◌++◌, ok, is_ok}
use rootlesskit.Text.{codes, str_eq}
use rootlesskit.Port.Examples.{net, web, resolve}
use rootlesskit.BuiltinChild.{
  Request, Child, System, check_proto, target_ip, handle_connect_request, send_fd, sent,
  interrupted,
}
use rootlesskit.BuiltinChild.Message.{connect_request}
use rootlesskit.BuiltinChild.Dial.{transparent_harmless}

abbrev system : System
system = record {
  join_host_port = λ ip port. ip ++ b':' ∷ port;
  dial = λ proto addr. some 7;
  transparent_dial = λ proto addr ip port. none;
  file_of = some;
  has_own_file = true;
  sends = interrupted ∷ sent ∷ [];
  has_iptables = true;
  has_mangle = true;
  reply_written = true;
}

abbrev ready : Child
ready = record { source_ip_transparent = true; routing = some true; warned = false }

abbrev request : Request
request = connect_request net [] web (some (codes "client", pos 40000))

accepted_proto : check_proto request.proto ≡ ok tt
unfolding check_proto connect_request str_eq
accepted_proto = refl

request_target : target_ip net request ≡ ok (codes "10.0.2.100")
unfolding target_ip connect_request resolve str_eq
request_target = refl

all_sent : send_fd system.sends ≡ ok tt
unfolding send_fd
all_sent = refl

transparent_harmless_example : is_ok (handle_connect_request net system ready request).1 ≡ true
transparent_harmless_example =
    transparent_harmless net system ready request (codes "10.0.2.100") 7 accepted_proto
      request_target refl (λ n. refl) refl all_sent
