-- ===== src/Spawn.antt =====
-- The files and the environment that the parent gives to the child (setupFilesAndEnv and Parent of
-- pkg/parent/parent.go), and what the child makes of them (Child, setupFiles and createCmd of
-- pkg/child/child.go). An environment is a list of pairs, of which the last one of a name counts.
pub mod Files
pub mod Inherited
pub mod Examples
use rootlesskit.Base.{
  ltb, if◌then◌else◌, ℤ, pos, negsuc, eq_ℤ, ℕ, zero, suc, ◌+◌, ◌-◌, Bool, true, false, Option, none,
  some, List, [], ◌∷◌, ◌++◌, Result, ok, err, ◌>>=◌, ◌>>◌, reject_if, or_fail, get_elem?,
}
use rootlesskit.Text.{Bytes, codes, str_eq, is_empty}
use rootlesskit.Text.Decimal.{atoi, itoa}

abbrev pub Environ : Type 0
Environ = List (Bytes × Bytes)

-- `os.Getenv`; a name that is not there has the empty value.
unfoldable pub find_env : Environ → Bytes → Option Bytes
find_env [] k = none
find_env ((name, value) ∷ rest) k = elim (find_env rest k) [
  | some v ↦ some v
  | none ↦ if str_eq name k then some value else none
]

unfoldable pub getenv : Environ → Bytes → Bytes
getenv env k = elim (find_env env k) [ none ↦ [] | some v ↦ v ]

-- The options of the parent that go into the environment.
pub record Opt : Type 0 where
  pub pipe_fd_env_key : Bytes
  pub child_use_activation_env_key : Bytes
  pub state_dir_env_key : Bytes
  pub state_dir : Bytes
  pub parent_euid_env_key : Bytes
  pub parent_egid_env_key : Bytes

abbrev pub listen_fds_start : ℕ
listen_fds_start = 3

unfoldable pub positive : ℤ → ℕ
positive (pos n) = n
positive (negsuc n) = 0

unfoldable pub count_fds : Option ℤ → Option ℤ → ℕ
unfolding positive
count_fds (some pid) (some fds) = positive fds
count_fds _ _ = 0

-- The number of files of a socket activation, 0 where there is none.
unfoldable pub listen_fds : Environ → ℕ
unfolding count_fds
listen_fds env =
    count_fds (atoi (getenv env (codes "LISTEN_PID"))) (atoi (getenv env (codes "LISTEN_FDS")))

module _ {F : Type 0} where
  -- `os.NewFile(fd, ...)` for `n` descriptors in a row, in a table of files.
  unfoldable pub files_from : (ℕ → Option F) → ℕ → ℕ → List (Option F)
  files_from table fd zero = []
  files_from table fd (suc n) = table fd ∷ files_from table (suc fd) n

  -- `cmd.ExtraFiles` of the parent.
  unfoldable pub extra_files : (ℕ → Option F) → F → F → Environ → List (Option F)
  extra_files table read_pipe write_pipe env =
      files_from table listen_fds_start (listen_fds env) ++ some read_pipe ∷ some write_pipe ∷ []

  abbrev pub file_at : Option (Option F) → Option F
  file_at none = none
  file_at (some f) = f

  -- The table of a process that is started with extra files, beyond the three standard ones.
  unfoldable pub table_of : List (Option F) → ℕ → Option F
  table_of files fd = if ltb fd 3 then none else file_at (get_elem? files (fd - 3))

-- "a,b".
unfoldable pub pair_text : ℕ → ℕ → Bytes
pair_text a b = itoa (pos a) ++ codes "," ++ itoa (pos b)

format_bool : Bool → Bytes
format_bool true = codes "true"
format_bool false = codes "false"

eq_pid : Option ℤ → ℤ → Bool
eq_pid none pid = false
eq_pid (some p) pid = eq_ℤ p pid

-- `cmdEnv` of setupFilesAndEnv. Without a number, listenPid is 0, which is no process.
unfoldable pub setup_env : Opt → ℤ → Environ → Environ
unfolding eq_pid format_bool
setup_env opt pid env =
    let n = listen_fds env in
    env
    ++ (opt.pipe_fd_env_key, pair_text (listen_fds_start + n) (listen_fds_start + n + 1))
      ∷ (
        opt.child_use_activation_env_key,
        format_bool (eq_pid (atoi (getenv env (codes "LISTEN_PID"))) pid),
      )
      ∷ []

unfoldable pub named : Bytes → Bytes → Environ
named key value = if is_empty key then [] else (key, value) ∷ []

-- `cmd.Env` of Parent.
unfoldable pub child_env : Opt → ℤ → ℤ → ℤ → Environ → Environ
unfolding named
child_env opt pid euid egid env =
    setup_env opt pid env
    ++ named opt.state_dir_env_key opt.state_dir
    ++ named opt.parent_euid_env_key (itoa euid)
    ++ named opt.parent_egid_env_key (itoa egid)

pub data Error : Type 0 where
  no_key not_set : Error
  unexpected_fd : Bytes → Error
  -- `make` with a negative length.
  panic : Error

-- The first lines of Child; `sscanf` reads "%d,%d".
unfoldable pub pipe_fds : (Bytes → Option (ℕ × ℕ)) → Bytes → Environ → Result Error (ℕ × ℕ)
pipe_fds sscanf key env = do
  reject_if (is_empty key) no_key
  let text = getenv env key
  reject_if (is_empty text) not_set
  or_fail (sscanf text) (unexpected_fd text)

module _ {F : Type 0} where
  unfoldable pub files_for : (ℕ → Option F) → Option ℤ → Result Error (List (Option F))
  files_for table none = ok []
  files_for table (some (pos n)) = ok (files_from table 3 n)
  files_for table (some (negsuc n)) = err panic

  -- `setupFiles` of the child.
  unfoldable pub setup_files : (ℕ → Option F) → Environ → Result Error (List (Option F))
  unfolding files_for
  setup_files table env = files_for table (atoi (getenv env (codes "LISTEN_FDS")))
