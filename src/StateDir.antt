-- ===== src/StateDir.antt =====
-- The state directory of pkg/parent/parent.go: its lock, InitStateDir, and the part of Parent that
-- keeps the directory from its checks to the removal.
pub mod Locked
pub mod Cleared
pub mod Lifetime
pub mod Examples
use rootlesskit.Base.{if◌then◌else◌, Bool, true, false, not, ◌&&◌, List, [], ◌∷◌, ok, err, is_ok}
use rootlesskit.Text.{Bytes, codes, str_eq, is_empty}
use rootlesskit.Calls.{Kernel, Act, ◌>>=◌, ◌>>◌, call, attempt, pure, fail_if, done, deferring}
use rootlesskit.Spawn.{Opt}

pub data Call : Type 0 where
  stat open_dir flock_shared mkdir_all read_dir remove_all : Bytes → Call
  -- The lock of the lock file, which is not `flock_shared` of the directory.
  try_lock unlock : Bytes → Call

pub data Error : Type 0 where
  no_pipe_fd_key no_state_dir not_absolute inaccessible : Error
  is_locked : Bytes → Error
  lock_failed remove_failed : Bytes → Bytes → Error
  open_failed mkdir_failed read_dir_failed : Bytes → Error

-- The kernel and `filepath`; and what a call tells that has no error, by the calls made before:
-- whether a path is a directory, whether the lock was free, and the names in a directory.
pub record System : Type 0 where
  pub kernel : Kernel Call
  pub join : Bytes → Bytes → Bytes
  pub is_abs : Bytes → Bool
  pub is_dir : List Call → Bytes → Bool
  pub is_free : List Call → Bytes → Bool
  pub entries : List Call → Bytes → List Bytes

-- `StateFileLock`.
abbrev pub lock_name : Bytes
lock_name = codes "lock"

module _ (sys : System) where
  check_dir : Bytes → Act Call Error (Unit {0})
  check_dir dir log =
      if is_ok (sys.kernel log (stat dir)) && sys.is_dir log dir
      then (ok tt, stat dir ∷ log)
      else (err inaccessible, stat dir ∷ log)

  -- `checkPreflight`.
  unfoldable pub check_preflight : Opt → Act Call Error (Unit {0})
  unfolding check_dir
  check_preflight opt = do
    fail_if (is_empty opt.pipe_fd_env_key) no_pipe_fd_key
    fail_if (is_empty opt.state_dir) no_state_dir
    fail_if (not (sys.is_abs opt.state_dir)) not_absolute
    check_dir opt.state_dir

  -- `createCleanupLock`; the error of flock(2) is logged.
  unfoldable pub create_cleanup_lock : Bytes → Act Call Error (Unit {0})
  create_cleanup_lock dir =
      call sys.kernel open_failed (open_dir dir) >> done (attempt sys.kernel (flock_shared dir))

  unfoldable pub try_lock_at : Bytes → Act Call Error Bytes
  try_lock_at path log = elim (sys.kernel log (try_lock path)) [
    | err e ↦ (err (lock_failed path e), try_lock path ∷ log)
    | ok _ ↦
        if sys.is_free log path
        then (ok path, try_lock path ∷ log)
        else (err (is_locked path), try_lock path ∷ log)
  ]

  -- `LockStateDir`: the path of the lock.
  unfoldable pub lock_state_dir : Bytes → Act Call Error Bytes
  unfolding try_lock_at
  lock_state_dir dir = try_lock_at (sys.join dir lock_name)

  unfoldable pub list_dir : Bytes → Act Call Error (List Bytes)
  list_dir dir log = elim (sys.kernel log (read_dir dir)) [
    | ok _ ↦ (ok (sys.entries log dir), read_dir dir ∷ log)
    | err e ↦ (err (read_dir_failed e), read_dir dir ∷ log)
  ]

  unfoldable pub remove_entry : Bytes → Act Call Error (Unit {0})
  remove_entry path = done (call sys.kernel (remove_failed path) (remove_all path))

  -- The loop over the entries.
  unfoldable pub remove_entries : Bytes → List Bytes → Act Call Error (Unit {0})
  unfolding remove_entry
  remove_entries dir [] = pure tt
  remove_entries dir (f ∷ fs) =
      let rest = remove_entries dir fs in
      if str_eq f lock_name then rest else remove_entry (sys.join dir f) >> rest

  unfoldable pub clear : Bytes → Act Call Error (Unit {0})
  unfolding list_dir remove_entries
  clear dir = list_dir dir >>= remove_entries dir

  -- `InitStateDir`.
  unfoldable pub init_state_dir : Bytes → Act Call Error (Unit {0})
  unfolding lock_state_dir clear
  init_state_dir dir = do
    call sys.kernel mkdir_failed (mkdir_all dir)
    lock ← lock_state_dir dir
    deferring (unlock lock) (clear dir)

  -- `Parent`; what follows on the lock is an argument. Its deferred calls are made last first.
  unfoldable pub parent : Opt → Act Call Error (Unit {0}) → Act Call Error (Unit {0})
  unfolding check_preflight create_cleanup_lock lock_state_dir
  parent opt run = do
    check_preflight opt
    create_cleanup_lock opt.state_dir
    lock ← lock_state_dir opt.state_dir
    deferring (remove_all opt.state_dir) (deferring (unlock lock) run)

  -- Whether the process holds a lock: the last call that took or released it took it.
  unfoldable pub holds : Bytes → List Call → Bool
  holds path [] = false
  holds path (try_lock p ∷ log) =
      let before = holds path log in
      if str_eq p path && (is_ok (sys.kernel log (try_lock p)) && sys.is_free log p)
      then true
      else before
  holds path (unlock p ∷ log) =
      let before = holds path log in if str_eq p path then false else before
  holds path (c ∷ log) = holds path log
