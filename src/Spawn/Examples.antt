-- ===== src/Spawn/Examples.antt =====
-- Tests of the files that are passed on. Files are numbered: those of the parent by descriptor, the
-- pipes 100 and 101.
use rootlesskit.Base.{length, pos, ℕ, ◌≡◌, refl, Option, some, List, [], ◌∷◌, arith, ok}
use rootlesskit.Text.{Bytes, codes, str_eq}
use rootlesskit.Text.Decimal.{atoi}
use rootlesskit.Spawn.{
  Environ, Opt, find_env, getenv, listen_fds, files_from, extra_files, table_of, child_env,
  pipe_fds, setup_files, files_for, count_fds, positive,
}
use rootlesskit.Spawn.Inherited.{IsOther, pipes-inherited, sockets-inherited}

abbrev opt : Opt
opt = record {
  pipe_fd_env_key = codes "_PIPEFD";
  child_use_activation_env_key = codes "_ACTIVATION";
  state_dir_env_key = codes "STATE_DIR";
  state_dir = codes "/run";
  parent_euid_env_key = codes "PARENT_EUID";
  parent_egid_env_key = [];
}

abbrev activated : Environ
activated = (codes "LISTEN_PID", codes "7") ∷ (codes "LISTEN_FDS", codes "2") ∷ []

abbrev open_files : ℕ → Option ℕ
open_files fd = some fd

abbrev scan : Bytes → Option (ℕ × ℕ)
scan s = some (5, 6)

pipe_fd-IsOther : IsOther opt (codes "_PIPEFD")
unfolding str_eq
pipe_fd-IsOther = record {
  not_state_dir = refl;
  not_euid = refl;
  not_egid = refl;
  not_activation = refl;
}

fds-IsOther : IsOther opt (codes "LISTEN_FDS")
unfolding str_eq
fds-IsOther = record {
  not_state_dir = refl;
  not_euid = refl;
  not_egid = refl;
  not_activation = refl;
}

pipes-inherited_example :
    (pipe_fds scan (codes "_PIPEFD") (child_env opt (pos 7) (pos 1000) (pos 1000) activated)
      ≡ ok (5, 6))
    × (table_of (extra_files open_files 100 101 activated) 5 ≡ some 100)
    × (table_of (extra_files open_files 100 101 activated) 6 ≡ some 101)
unfolding listen_fds getenv find_env str_eq atoi count_fds positive
pipes-inherited_example =
    pipes-inherited scan open_files 100 101 opt (pos 7) (pos 1000) (pos 1000) activated refl
      pipe_fd-IsOther refl

sockets-inherited_example :
    let child_table = table_of (extra_files open_files 100 101 activated) in
    (files : List (Option ℕ)) × (setup_files child_table
        (child_env opt (pos 7) (pos 1000) (pos 1000) activated)
      ≡ ok files)
    × (length files ≡ listen_fds activated)
    × (table_of files 4 ≡ some 4)
unfolding listen_fds getenv find_env str_eq atoi count_fds positive
sockets-inherited_example =
    sockets-inherited open_files 100 101 opt (pos 7) (pos 1000) (pos 1000) activated 1 1 refl
      (omega arith) fds-IsOther refl

-- Without LISTEN_PID the parent passes no socket on, but the child still takes LISTEN_FDS at its
-- word: it gives the target command the pipe of the parent.
pipe_leaks :
    let env : Environ = (codes "LISTEN_FDS", codes "1") ∷ [] in
    setup_files (table_of (extra_files open_files 100 101 env)) env ≡ ok (some 100 ∷ [])
unfolding setup_files files_for files_from extra_files table_of listen_fds getenv find_env str_eq
    atoi count_fds positive
pipe_leaks = refl
