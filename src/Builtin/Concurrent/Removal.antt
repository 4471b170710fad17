-- ===== src/Builtin/Concurrent/Removal.antt =====
-- What the steps of `RemovePort` and the ends of routines keep.
use rootlesskit.Base.{ℤ, ℕ, ◌≡◌, Option, none, some, arith}
use rootlesskit.Port.{Spec, Status}
use rootlesskit.Port.Table.{lookup, lookup-delete}
use rootlesskit.Builtin.{Driver, remove_port, Stopping}
use rootlesskit.Builtin.Concurrent.{System, close_socket}
use rootlesskit.Builtin.Concurrent.Calls.{Inv}

-- A removal drops the entry and the stopper of the ID, if there is one.
remove_after :
    (stopping : Stopping) (id j : ℤ) (d : Driver) (st : Status)
    → lookup j (remove_port stopping id d).0.ports ≡ some st
    → lookup j d.ports ≡ some st
unfolding remove_port
remove_after stopping id j d st h = ground (arith, lookup-delete id j d.ports)

pub leave-Inv :
    (s : System) (stopping : Stopping) (id : ℤ)
    → Inv s
    → Inv (record s { driver = (remove_port stopping id s.driver).0 })
leave-Inv s stopping id v = record {
  exclusive = v.exclusive;
  idle_socket = v.idle_socket;
  validated_socket = v.validated_socket;
  started_socket = v.started_socket;
  port_socket = λ j st b h. v.port_socket j st b (remove_after stopping id j s.driver st h);
  port_returned = λ j st h. v.port_returned j st (remove_after stopping id j s.driver st h);
  one_id = λ j k st u h g e.
      v.one_id j k st u (remove_after stopping id j s.driver st h)
        (remove_after stopping id k s.driver u g) e;
}

-- The end of a listener.
pub close-Inv : (s : System) (i : ℕ) → Inv s → Inv (record s { socket = close_socket i s })
close-Inv s i v = record {
  exclusive = λ j k a b h g c. v.exclusive j k a b (ground arith) (ground arith) c;
  idle_socket = λ j h. ground (arith, v.idle_socket j h);
  validated_socket = λ j a h. ground (arith, v.validated_socket j a h);
  started_socket = λ j a b h g. v.started_socket j a b h (ground arith);
  port_socket = λ id st b h g. v.port_socket id st b h (ground arith);
  port_returned = v.port_returned;
  one_id = v.one_id;
}

pub remove-Inv :
    (s : System) (stopping : Stopping) (id : ℤ) (o : Option Spec)
    → Inv s
    → Inv (record s {
      driver = (remove_port stopping id s.driver).0;
      socket = elim o [ none ↦ s.socket | some _ ↦ close_socket (s.routine id) s ];
    })
remove-Inv s stopping id none v = leave-Inv s stopping id v
remove-Inv s stopping id (some a) v =
    close-Inv (record s { driver = (remove_port stopping id s.driver).0 }) (s.routine id)
      (leave-Inv s stopping id v)
