-- ===== src/Spawn/Inherited.antt =====
-- The descriptors that the child and the target command find.
use rootlesskit.Base.{
  length, ℤ, pos, negsuc, ℕ, suc, ◌+◌, ◌<◌, ◌≡◌, refl, sym, ap, ◌∙◌, false, Option, none, some,
  List, [], ◌∷◌, ◌++◌, arith, ok,
}
use rootlesskit.Text.{Bytes, codes, str_eq, str_eq_refl, is_empty}
use rootlesskit.Text.Decimal.{atoi, itoa}
use rootlesskit.Spawn.{
  Environ, find_env, getenv, Opt, listen_fds, count_fds, files_from, extra_files, table_of,
  pair_text, setup_env, child_env, named, pipe_fds, setup_files, files_for, file_at,
}
use rootlesskit.Spawn.Files.{length-files, files-at_alone, table_of-shift, socket-at, pipe-at}

find-skip :
    (xs ys : Environ) (k : Bytes) → find_env ys k ≡ none → find_env (xs ++ ys) k ≡ find_env xs k
unfolding find_env
find-skip [] ys k h = h
find-skip ((name, value) ∷ xs) ys k h = rw (find-skip xs ys k h)

find-last :
    (xs ys : Environ) (k v : Bytes) → find_env ys k ≡ some v → find_env (xs ++ ys) k ≡ some v
unfolding find_env
find-last [] ys k v h = h
find-last ((name, value) ∷ xs) ys k v h = rw (find-last xs ys k v h)

named-other : (key value k : Bytes) → str_eq key k ≡ false → find_env (named key value) k ≡ none
unfolding find_env named
named-other key value k h = ground (arith, h)

-- A name that none of the additions of Parent has.
pub record IsOther (opt : Opt) (k : Bytes) : Type 0 where
  pub not_state_dir : str_eq opt.state_dir_env_key k ≡ false
  pub not_euid : str_eq opt.parent_euid_env_key k ≡ false
  pub not_egid : str_eq opt.parent_egid_env_key k ≡ false
  pub not_activation : str_eq opt.child_use_activation_env_key k ≡ false

find-child_env :
    (opt : Opt) (pid euid egid : ℤ) (env : Environ) (k : Bytes)
    → IsOther opt k
    → find_env (child_env opt pid euid egid env) k ≡ find_env (setup_env opt pid env) k
unfolding child_env
find-child_env opt pid euid egid env k o =
    let base = setup_env opt pid env in
    let one = named opt.state_dir_env_key opt.state_dir in
    let two = named opt.parent_euid_env_key (itoa euid) in
    let three = named opt.parent_egid_env_key (itoa egid) in
    find-skip (base ++ one ++ two) three k
      (named-other opt.parent_egid_env_key (itoa egid) k o.not_egid)
    ∙ find-skip (base ++ one) two k (named-other opt.parent_euid_env_key (itoa euid) k o.not_euid)
    ∙ find-skip base one k (named-other opt.state_dir_env_key opt.state_dir k o.not_state_dir)

pipe_env :
    (opt : Opt) (pid : ℤ) (env : Environ)
    → str_eq opt.child_use_activation_env_key opt.pipe_fd_env_key ≡ false
    → find_env (setup_env opt pid env) opt.pipe_fd_env_key
      ≡ some (pair_text (3 + listen_fds env) (3 + listen_fds env + 1))
unfolding setup_env find_env
pipe_env opt pid env other =
    find-last env _ opt.pipe_fd_env_key (pair_text (3 + listen_fds env) (3 + listen_fds env + 1))
      (ground (arith, other, str_eq_refl opt.pipe_fd_env_key))

is_empty-append : (xs ys : Bytes) (c : ℕ) → is_empty ((xs ++ c ∷ []) ++ ys) ≡ false
is_empty-append [] ys c = refl
is_empty-append (x ∷ xs) ys c = refl

pair_text-ne_nil : (a b : ℕ) → is_empty (pair_text a b) ≡ false
unfolding pair_text
pair_text-ne_nil a b = is_empty-append (itoa (pos a)) (itoa (pos b)) b','

getenv-found : (env : Environ) (k v : Bytes) → find_env env k ≡ some v → getenv env k ≡ v
unfolding getenv
getenv-found env k v h = rw (h, getenv) refl

getenv-same : (a b : Environ) (k : Bytes) → find_env a k ≡ find_env b k → getenv a k ≡ getenv b k
unfolding getenv
getenv-same a b k h = rw (h, getenv) refl

-- The child finds the reading and the writing end of its pipes at the two descriptors that it
-- reads from its environment, if the names of the variables differ and Sscanf reads the numbers
-- that Itoa wrote.
pub pipes-inherited :
    {F : Type 0} (sscanf : Bytes → Option (ℕ × ℕ)) (table : ℕ → Option F) (r w : F) (opt : Opt)
    (pid euid egid : ℤ) (env : Environ)
    → is_empty opt.pipe_fd_env_key ≡ false
    → IsOther opt opt.pipe_fd_env_key
    → (let n = listen_fds env in sscanf (pair_text (3 + n) (3 + n + 1)) ≡ some (3 + n, 3 + n + 1))
    → let n = listen_fds env in
      (pipe_fds sscanf opt.pipe_fd_env_key (child_env opt pid euid egid env)
        ≡ ok (3 + n, 3 + n + 1))
      × (table_of (extra_files table r w env) (3 + n) ≡ some r)
      × (table_of (extra_files table r w env) (3 + n + 1) ≡ some w)
unfolding pipe_fds
pipes-inherited sscanf table r w opt pid euid egid env has_key o scans =
    let n = listen_fds env in
    let found =
      find-child_env opt pid euid egid env opt.pipe_fd_env_key o
      ∙ pipe_env opt pid env o.not_activation in
    let first : 3 + n ≡ 3 + (n + 0) = omega arith in
    let second : 3 + n + 1 ≡ 3 + (n + 1) = omega arith in
    let text : getenv (child_env opt pid euid egid env) opt.pipe_fd_env_key
        ≡ pair_text (3 + n) (3 + n + 1) =
      getenv-found (child_env opt pid euid egid env) opt.pipe_fd_env_key
        (pair_text (3 + n) (3 + n + 1)) found in
    (
      rw (text, has_key, pair_text-ne_nil (3 + n) (3 + n + 1), scans),
      ap (table_of (extra_files table r w env)) first ∙ pipe-at table r w env 0,
      ap (table_of (extra_files table r w env)) second ∙ pipe-at table r w env 1,
    )

setup_env-other :
    (opt : Opt) (pid : ℤ) (env : Environ) (k : Bytes)
    → str_eq opt.pipe_fd_env_key k ≡ false
    → str_eq opt.child_use_activation_env_key k ≡ false
    → find_env (setup_env opt pid env) k ≡ find_env env k
unfolding setup_env find_env
setup_env-other opt pid env k p a = find-skip env _ k (ground (arith, p, a))

-- A number of sockets that is not 0 is what LISTEN_FDS says.
listen_fds-suc :
    (env : Environ) (n : ℕ)
    → listen_fds env ≡ suc n
    → atoi (getenv env (codes "LISTEN_FDS")) ≡ some (pos (suc n))
unfolding listen_fds
listen_fds-suc env n h =
    counted (atoi (getenv env (codes "LISTEN_PID"))) (atoi (getenv env (codes "LISTEN_FDS"))) n h
  where
    counted : (p f : Option ℤ) (n : ℕ) → count_fds p f ≡ suc n → f ≡ some (pos (suc n))
    counted none f n h = absurd (ground arith)
    counted (some p) none n h = absurd (ground arith)
    counted (some p) (some (pos m)) n h = ap (λ k. some (pos k)) h
    counted (some p) (some (negsuc m)) n h = absurd (ground arith)

-- With a socket activation, the target command gets the parent's sockets at the descriptors at
-- which the parent has them: the child passes on as many files as LISTEN_FDS says, and each is
-- the parent's of the same number, if the variables that the parent adds have other names.
pub sockets-inherited :
    {F : Type 0} (table : ℕ → Option F) (r w : F) (opt : Opt) (pid euid egid : ℤ) (env : Environ)
    (n i : ℕ)
    → listen_fds env ≡ suc n
    → i < suc n
    → IsOther opt (codes "LISTEN_FDS")
    → str_eq opt.pipe_fd_env_key (codes "LISTEN_FDS") ≡ false
    → let child_table = table_of (extra_files table r w env) in
      (files : List (Option F)) × (setup_files child_table (child_env opt pid euid egid env)
        ≡ ok files)
      × (length files ≡ listen_fds env)
      × (table_of files (3 + i) ≡ table (3 + i))
unfolding setup_files files_for
sockets-inherited table r w opt pid euid egid env n i count lt o p =
    let key = codes "LISTEN_FDS" in
    let child_table = table_of (extra_files table r w env) in
    let found =
      find-child_env opt pid euid egid env key o
      ∙ setup_env-other opt pid env key p o.not_activation in
    let same = getenv-same (child_env opt pid euid egid env) env key found in
    let number = ap atoi same ∙ listen_fds-suc env n count in
    let files = files_from child_table 3 (suc n) in
    (
      files,
      rw number refl,
      length-files child_table 3 (suc n) ∙ sym count,
      table_of-shift files i
          ∙ ap file_at (files-at_alone child_table 3 (suc n) i lt)
          ∙ socket-at table r w env i (omega (arith, count, lt)),
    )
