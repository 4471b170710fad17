-- ===== src/Builtin.antt =====
-- pkg/port/builtin/parent/parent.go: the parent side of the port driver "builtin". What the system
-- answers (the listeners, the channel of a stopped routine, the sysctl file) is an argument.
pub mod Manager
pub mod Concurrent
pub mod Examples
use mathlib.Core.Option
use rootlesskit.Base.{
  any, if◌then◌else◌, ℤ, pos, negsuc, leb_ℤ, eq_ℤ, ◌+ℤ◌, Bool, ◌||◌, Option, none, some, List, [],
  ◌∷◌, Result, ok, err, ◌>>◌, wrap_err,
}
use rootlesskit.Text.{Bytes, codes, str_eq}
use rootlesskit.Text.Search.{has_infix, trim_space}
use rootlesskit.Text.Decimal.{atoi, max_int}
use rootlesskit.Net.{Net}
use rootlesskit.Port.{Spec, Status}
use rootlesskit.Port.Table.{Table, lookup, store, delete, values}
use rootlesskit.Port.Validate
use rootlesskit.Port.Validate.{validate_port_spec}

-- The driver's maps and counter. A stopper is known by the specification of the routine it stops.
pub record Driver : Type 0 where
  pub ports : Table Status
  pub stoppers : Table Spec
  pub next_id : ℤ

-- `NewDriver`.
abbrev pub new_driver : Driver
new_driver = record { ports = []; stoppers = []; next_id = pos 1 }

-- An error of a listener: whether `errors.Is` finds EPERM in it, and its text.
pub record RunError : Type 0 where
  pub is_eperm : Bool
  pub text : Bytes

-- What the driver meets: `tcp.Run` and `udp.Run`, the content of the file
-- ip_unprivileged_port_start, and the base name of the program.
pub record Env : Type 0 where
  pub tcp_run : Spec → Option RunError
  pub udp_run : Spec → Option RunError
  pub port_start : Option Bytes
  pub program : Bytes

pub data Error : Type 0 where
  invalid : Validate.Error → Error
  unsupported_proto : Bytes → Error
  run_failed : RunError → Error
  -- The port, the first unprivileged port, and whether the capability is suggested.
  privileged_port : ℤ → ℤ → Bool → RunError → Error

-- `isEPERM`.
unfoldable pub is_eperm : RunError → Bool
unfolding has_infix
is_eperm e = e.is_eperm || has_infix e.text (codes "permission denied")

annotate_at : Env → RunError → Spec → Option ℤ → Error
annotate_at env e spec none = run_failed e
annotate_at env e spec (some start) =
    if leb_ℤ start spec.parent_port
    then run_failed e
    else privileged_port spec.parent_port start (str_eq env.program (codes "rootlesskit")) e

-- `annotateEPERM`.
unfoldable pub annotate_eperm : Env → RunError → Spec → Error
unfolding annotate_at
annotate_eperm env e spec =
    annotate_at env e spec (Option.bind env.port_start (λ b. atoi (trim_space b)))

abbrev pub is_one_of : Bytes → List Bytes → Bool
is_one_of s names = any (str_eq s) names

abbrev pub tcp_protos : List Bytes
tcp_protos = codes "tcp" ∷ codes "tcp4" ∷ codes "tcp6" ∷ []

abbrev pub udp_protos : List Bytes
udp_protos = codes "udp" ∷ codes "udp4" ∷ codes "udp6" ∷ []

report_run : Env → Spec → Option RunError → Result Error (Unit {0})
report_run env spec none = ok tt
report_run env spec (some e) = err (if is_eperm e then annotate_eperm env e spec else run_failed e)

-- The switch on the protocol, outside the lock.
unfoldable pub start_routine : Env → Spec → Result Error (Unit {0})
unfolding report_run
start_routine env spec =
    if is_one_of spec.proto tcp_protos
    then report_run env spec (env.tcp_run spec)
    else if is_one_of spec.proto udp_protos
    then report_run env spec (env.udp_run spec)
    else err (unsupported_proto spec.proto)

-- `d.nextID++` on a 64-bit `int`.
unfoldable pub next_int : ℤ → ℤ
next_int n = if eq_ℤ n (pos max_int) then negsuc max_int else n +ℤ pos 1

-- The second locked part of `AddPort`.
unfoldable pub commit : Spec → Driver → Driver × Status
unfolding next_int
commit spec d =
    let st : Status = record { id = d.next_id; spec = spec } in
    (
      record d {
        ports = store d.next_id st d.ports;
        stoppers = store d.next_id spec d.stoppers;
        next_id = next_int d.next_id;
      },
      st,
    )

finish_add : Spec → Driver → Result Error (Unit {0}) → Driver × Result Error Status
finish_add spec d (err e) = (d, err e)
finish_add spec d (ok _) = let (d', st) = commit spec d in (d', ok st)

-- `AddPort`, with nothing between its locked parts but the start of the routine.
unfoldable pub add_port : Net → Env → Spec → Driver → Driver × Result Error Status
unfolding finish_add
add_port net env spec d =
    finish_add spec d
      (wrap_err invalid (validate_port_spec net spec d.ports) >> start_routine env spec)

-- `ListPorts`.
unfoldable pub list_ports : Driver → List Status
list_ports d = values d.ports

-- What `routineStop` sees: a result on routineStoppedCh, its close, or the deadline.
pub data Stopping : Type 0 where
  stopped : Option Bytes → Stopping
  closed_without_result : Stopping
  timed_out : Stopping

pub data StopError : Type 0 where
  unknown : ℤ → StopError
  stop_failed : Bytes → StopError
  no_result deadline : StopError

-- `routineStop`; the error of the routine, if it sent one.
unfoldable pub routine_stop : Stopping → Result StopError (Unit {0})
routine_stop (stopped none) = ok tt
routine_stop (stopped (some e)) = err (stop_failed e)
routine_stop closed_without_result = err no_result
routine_stop timed_out = err deadline

-- `RemovePort`. The entries go whatever the stopper says.
unfoldable pub remove_port : Stopping → ℤ → Driver → Driver × Result StopError (Unit {0})
unfolding routine_stop
remove_port stopping id d = elim (lookup id d.stoppers) [
  | none ↦ (d, err (unknown id))
  | some routine ↦ (
    record d { ports = delete id d.ports; stoppers = delete id d.stoppers },
    routine_stop stopping,
  )
]
