-- ===== src/Setup/Command.antt =====
-- createCmd of pkg/child/child.go, checkActivationHelper and createActivationOpts of
-- cmd/rootlesskit/main.go, and pkg/systemd/activation/activation.go: how the target command is
-- started, by itself or through the program once more. Environments are those of Spawn.
pub mod Target
use rootlesskit.Base.{
  any, if◌then◌else◌, ℤ, Bool, true, false, Option, none, some, List, [], ◌∷◌, ◌++◌, Result, ok,
  err, ◌>>=◌, ◌>>◌, or_fail,
}
use rootlesskit.Text.{Bytes, codes, str_eq}
use rootlesskit.Text.Decimal.{itoa}
use rootlesskit.Spawn.{Environ, find_env, getenv}

-- `strconv.ParseBool`; an error is `none`.
unfoldable pub parse_bool : Bytes → Option Bool
parse_bool s =
    if any (str_eq s)
      (codes "1" ∷ codes "t" ∷ codes "T" ∷ codes "TRUE" ∷ codes "true" ∷ codes "True" ∷ [])
    then some true
    else if any (str_eq s)
        (codes "0" ∷ codes "f" ∷ codes "F" ∷ codes "FALSE" ∷ codes "false" ∷ codes "False" ∷ [])
    then some false
    else none

-- `os.Unsetenv` and `os.Setenv`.
unfoldable pub unset_env : Environ → Bytes → Environ
unset_env [] k = []
unset_env ((name, value) ∷ env) k =
    let rest = unset_env env k in if str_eq name k then rest else (name, value) ∷ rest

unfoldable pub set_env : Environ → Bytes → Bytes → Environ
unfolding unset_env
set_env env k value = unset_env env k ++ (k, value) ∷ []

pub record Opt : Type 0 where
  pub run_activation_helper_env_key : Bytes
  pub child_use_activation_env_key : Bytes
  pub target_cmd : List Bytes

-- A program, its arguments behind its name, and its environment.
pub record Cmd : Type 0 where
  pub path : Bytes
  pub args : List Bytes
  pub env : Environ

pub data Error : Type 0 where
  -- An index out of range, or an environment that cannot be parsed.
  panic : Error
  not_found : Bytes → Error

direct_cmd : List Bytes → Environ → Result Error Cmd
direct_cmd [] env = err panic
direct_cmd (name ∷ args) env = ok (record { path = name; args = args; env = env })

is_true : Option Bool → Bool
is_true none = false
is_true (some b) = b

unfoldable pub fixes_listen_pid : Opt → Environ → Bool
unfolding is_true
fixes_listen_pid opt env = is_true (parse_bool (getenv env opt.child_use_activation_env_key))

-- `createCmd`; `args` are `os.Args[1:]`. The files are those of Spawn.
unfoldable pub create_cmd : Opt → List Bytes → Environ → Result Error Cmd
unfolding direct_cmd
create_cmd opt args env =
    let env' = unset_env env opt.child_use_activation_env_key in
    if fixes_listen_pid opt env
    then ok (record {
      path = codes "/proc/self/exe";
      args = args;
      env = env' ++ (opt.run_activation_helper_env_key, codes "true") ∷ [];
    })
    else direct_cmd opt.target_cmd env'

set_value : Option Bool → Result Error Bool
set_value none = err panic
set_value (some b) = ok b

is_helper : Option Bytes → Result Error Bool
unfolding set_value parse_bool
is_helper none = ok false
is_helper (some value) = set_value (parse_bool value)

-- `checkActivationHelper`.
unfoldable pub check_activation_helper : Opt → Environ → Result Error Bool
unfolding is_helper
check_activation_helper opt env = is_helper (find_env env opt.run_activation_helper_env_key)

found_target : (Bytes → Option Bytes) → List Bytes → Environ → Result Error Cmd
found_target look_path [] env = err panic
found_target look_path (name ∷ args) env = do
  path ← or_fail (look_path name) (not_found name)
  ok (record { path = path; args = args; env = env })

-- `ActivationHelper`: what the process goes on as.
unfoldable pub activation_helper : (Bytes → Option Bytes) → Opt → ℤ → Environ → Result Error Cmd
unfolding found_target set_env
activation_helper look_path opt pid env =
    found_target look_path opt.target_cmd
      (set_env (unset_env env opt.run_activation_helper_env_key) (codes "LISTEN_PID") (itoa pid))
