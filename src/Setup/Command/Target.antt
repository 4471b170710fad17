-- ===== src/Setup/Command/Target.antt =====
-- What the target command is started with.
use rootlesskit.Base.{
  if◌then◌else◌, ℤ, ◌≡◌, refl, true, false, Option, none, some, List, [], ◌∷◌, ◌++◌, arith, ok,
}
use rootlesskit.Text.{Bytes, codes, str_eq, str_eq_iff, str_eq_refl}
use rootlesskit.Spawn.{Environ, find_env, getenv}
use rootlesskit.Text.Decimal.{itoa}
use rootlesskit.Setup.Command.{
  unset_env, create_cmd, Opt, set_env, Cmd, activation_helper, check_activation_helper,
  found_target, fixes_listen_pid,
}

find-unset :
    (env : Environ) (k j : Bytes)
    → find_env (unset_env env k) j ≡ (if str_eq k j then none else find_env env j)
unfolding find_env unset_env
find-unset [] k j = ground arith
find-unset ((name, value) ∷ env) k j =
    ground (arith, find-unset env k j, str_eq_iff name k, str_eq_iff k j, str_eq_iff name j)

find-append :
    (env : Environ) (k v j : Bytes)
    → find_env (env ++ (k, v) ∷ []) j ≡ (if str_eq k j then some v else find_env env j)
unfolding find_env
find-append [] k v j = refl
find-append ((name, value) ∷ env) k v j = ground (arith, find-append env k v j)

-- The environment that the helper leaves to the target command.
abbrev helper_env : Opt → Environ → Environ
helper_env opt env =
    unset_env env opt.child_use_activation_env_key
    ++ (opt.run_activation_helper_env_key, codes "true") ∷ []

-- What the target command is started with behind the helper.
abbrev pub IsTarget : Opt → ℤ → Environ → Bytes → List Bytes → Cmd → Type 0
IsTarget opt pid env path args cmd =
    (cmd.path ≡ path)
    × (cmd.args ≡ args)
    × (getenv cmd.env (codes "LISTEN_PID") ≡ itoa pid)
    × (find_env cmd.env opt.child_use_activation_env_key ≡ none)
    × (find_env cmd.env opt.run_activation_helper_env_key ≡ none)
    × ((k : Bytes)
        → str_eq opt.child_use_activation_env_key k ≡ false
        → str_eq opt.run_activation_helper_env_key k ≡ false
        → str_eq (codes "LISTEN_PID") k ≡ false
        → find_env cmd.env k ≡ find_env env k)

module _ (opt : Opt) (pid : ℤ) (env : Environ) where
  abbrev target_env : Environ
  target_env =
      set_env (unset_env (helper_env opt env) opt.run_activation_helper_env_key)
        (codes "LISTEN_PID") (itoa pid)

  find-target_env :
      (k : Bytes)
      → find_env target_env k ≡ (
          if str_eq (codes "LISTEN_PID") k
          then some (itoa pid)
          else if str_eq opt.run_activation_helper_env_key k
          then none
          else if str_eq opt.child_use_activation_env_key k
          then none
          else find_env env k)
  unfolding set_env
  find-target_env k =
      let l = codes "LISTEN_PID" in
      let h = opt.run_activation_helper_env_key in
      let c = opt.child_use_activation_env_key in
      let e1 = helper_env opt env in
      let e2 = unset_env e1 h in
      let e0 = unset_env env c in
      ground (
        arith,
        find-append (unset_env e2 l) l (itoa pid) k,
        find-unset e2 l k,
        find-unset e1 h k,
        find-append e0 h (codes "true") k,
        find-unset env c k,
      )

  helper_is_started : check_activation_helper opt (helper_env opt env) ≡ ok true
  unfolding check_activation_helper str_eq
  helper_is_started =
      let h = opt.run_activation_helper_env_key in
      let e0 = unset_env env opt.child_use_activation_env_key in
      rw (find-append e0 h (codes "true") h, str_eq_refl h) refl

getenv_found : (env : Environ) (k v : Bytes) → find_env env k ≡ some v → getenv env k ≡ v
unfolding getenv
getenv_found env k v h = rw (h, getenv) refl

-- Where the child passes sockets on, the program is run once more with the same arguments, as the
-- helper; and the helper goes on as the target command, with LISTEN_PID set to its own process, the
-- two variables of the program gone, and all others as the child has them. It is a premise that the
-- target command is found, and that the names of the three variables differ.
pub create_cmd-IsTarget :
    (look_path : Bytes → Option Bytes) (opt : Opt) (argv : List Bytes) (pid : ℤ) (env : Environ)
    (name path : Bytes) (args : List Bytes)
    → fixes_listen_pid opt env ≡ true
    → opt.target_cmd ≡ name ∷ args
    → look_path name ≡ some path
    → str_eq (codes "LISTEN_PID") opt.child_use_activation_env_key ≡ false
    → str_eq (codes "LISTEN_PID") opt.run_activation_helper_env_key ≡ false
    → (helper target : Cmd) × (create_cmd opt argv env ≡ ok helper)
      × (helper.path ≡ codes "/proc/self/exe")
      × (helper.args ≡ argv)
      × (check_activation_helper opt helper.env ≡ ok true)
      × (activation_helper look_path opt pid helper.env ≡ ok target)
      × IsTarget opt pid env path args target
unfolding create_cmd activation_helper found_target
create_cmd-IsTarget look_path opt argv pid env name path args fixes cmd found k2 k3 =
    let find = find-target_env opt pid env in
    let l = codes "LISTEN_PID" in
    (
      record { path = codes "/proc/self/exe"; args = argv; env = helper_env opt env },
      record { path = path; args = args; env = target_env opt pid env },
      rw fixes refl,
      refl,
      refl,
      helper_is_started opt pid env,
      rw (cmd, found_target, found) refl,
      (
        refl,
        refl,
        getenv_found (target_env opt pid env) l (itoa pid) (ground (arith, find l, str_eq_refl l)),
        ground (
          arith,
          find opt.child_use_activation_env_key,
          k2,
          str_eq_refl opt.child_use_activation_env_key,
        ),
        ground (
          arith,
          find opt.run_activation_helper_env_key,
          k3,
          str_eq_refl opt.run_activation_helper_env_key,
        ),
        λ k h1 h2 h3. ground (arith, find k, h1, h2, h3),
      ),
    )
