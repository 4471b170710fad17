-- ===== src/StateDir/Examples.antt =====
-- The state directory at concrete inputs.
use rootlesskit.Base.{◌≡◌, refl, true, false, List, [], ◌∷◌, ◌++◌, ok}
use rootlesskit.Text.{Bytes, codes}
use rootlesskit.Calls.{Act, pure}
use rootlesskit.Spawn.{Opt}
use rootlesskit.StateDir.{
  System, Call, Error, init_state_dir, parent, mkdir_all, read_dir, remove_all, try_lock, unlock,
}
use rootlesskit.StateDir.Locked.{During, init_state_dir-During}
use rootlesskit.StateDir.Cleared.{removing, init_state_dir-removing}
use rootlesskit.StateDir.Lifetime.{Ended, parent-Ended}

-- Every call succeeds, and the lock is free; a run before has left two files.
abbrev sys : System
sys = record {
  kernel = λ log c. ok [];
  join = λ dir name. dir ++ 47 ∷ name;
  is_abs = λ path. true;
  is_dir = λ log path. true;
  is_free = λ log path. true;
  entries = λ log dir. codes "api.sock" ∷ codes "lock" ∷ codes "child_pid" ∷ [];
}

abbrev dir : Bytes
dir = codes "/run/rk"

abbrev lock : Bytes
lock = codes "/run/rk/lock"

-- The calls of InitStateDir, the last first.
abbrev init_calls : List Call
init_calls =
    unlock lock
    ∷ remove_all (codes "/run/rk/child_pid")
    ∷ remove_all (codes "/run/rk/api.sock")
    ∷ read_dir dir
    ∷ try_lock lock
    ∷ mkdir_all dir
    ∷ []

init_state_dir_ok : init_state_dir sys dir [] ≡ (ok tt, init_calls)
unfolding init_state_dir rootlesskit.Text.str_eq
init_state_dir_ok = refl

init_state_dir-During_example : During sys dir false (init_state_dir sys dir []).1
unfolding rootlesskit.StateDir.holds
init_state_dir-During_example = init_state_dir-During sys dir [] (tt, refl)

init_state_dir-removing_example :
    init_calls
    ≡ unlock lock
      ∷ removing sys dir
          (codes "api.sock" ∷ codes "lock" ∷ codes "child_pid" ∷ [])
          (read_dir dir ∷ try_lock lock ∷ mkdir_all dir ∷ [])
init_state_dir-removing_example = init_state_dir-removing sys dir [] init_calls init_state_dir_ok

abbrev opt : Opt
opt = record {
  pipe_fd_env_key = codes "_PIPE";
  child_use_activation_env_key = codes "_ACTIVATION";
  state_dir_env_key = [];
  state_dir = dir;
  parent_euid_env_key = [];
  parent_egid_env_key = [];
}

abbrev run : Act Call Error (Unit {0})
run = pure tt

parent-Ended_example : Ended sys opt [] run (parent sys opt run [])
parent-Ended_example = parent-Ended sys opt run []
