-- ===== src/Builtin/Examples.antt =====
-- Tests of the builtin driver: a port is added, or refused by the system.
use rootlesskit.Base.{
  if◌then◌else◌, pos, eq_ℤ, ◌+ℤ◌, ◌≡◌, refl, false, none, some, [], ◌∷◌, arith, ok, err,
}
use rootlesskit.Text.{codes}
use rootlesskit.Text.Search.{has_infix}
use rootlesskit.Port.{Status}
use rootlesskit.Port.Table.{lookup, store}
use rootlesskit.Port.Validate.{validate_port_spec, find_conflict, validate_proto}
use rootlesskit.Port.Examples.{net, web, resolve}
use rootlesskit.Builtin.{
  Driver, Env, RunError, add_port, new_driver, is_eperm, start_routine, commit, run_failed,
  next_int,
}
use rootlesskit.Builtin.Manager.{Inv, builtin_add, new_driver-Inv}

abbrev pub listening : Env
listening = record {
  tcp_run = λ s. none;
  udp_run = λ s. none;
  port_start = none;
  program = codes "rootlesskit";
}

abbrev pub in_use : RunError
in_use = record { is_eperm = false; text = codes "address is taken" }

abbrev pub busy : Env
busy = record listening { tcp_run = λ s. some in_use }

abbrev pub web_status : Status
web_status = record { id = pos 1; spec = web }

abbrev pub with_web : Driver
with_web = record {
  ports = (pos 1, web_status) ∷ [];
  stoppers = (pos 1, web) ∷ [];
  next_id = pos 2;
}

pub added : add_port net listening web new_driver ≡ (with_web, ok web_status)
unfolding add_port validate_port_spec start_routine commit next_int find_conflict validate_proto
    resolve store ◌+ℤ◌
added = refl

builtin_add_example :
    (lookup (pos 1) new_driver.ports ≡ none)
    × (web_status.spec ≡ web)
    × (lookup (pos 1) (add_port net listening web new_driver).0.ports
        ≡ (if eq_ℤ (pos 1) (pos 1) then some web_status else lookup (pos 1) new_driver.ports))
    × Inv (add_port net listening web new_driver).0
builtin_add_example =
    builtin_add net listening web new_driver web_status (pos 1) new_driver-Inv (ground arith)
      (rw added refl)

pub refused : add_port net busy web new_driver ≡ (new_driver, err (run_failed in_use))
unfolding add_port validate_port_spec start_routine commit next_int find_conflict validate_proto
    resolve store ◌+ℤ◌ is_eperm has_infix
refused = refl
