-- ===== src/StateDir/Cleared.antt =====
-- What InitStateDir has removed where it succeeds.
use rootlesskit.Base.{
  if◌then◌else◌, Bool-cases, ◌≡◌, refl, sym, ap, ◌∙◌, inl, inr, List, [], ◌∷◌, arith, ok,
}
use rootlesskit.Text.{Bytes, str_eq}
use rootlesskit.Calls.{◌>>=◌, act-bind-ok, call-bind-ok, deferring, pure, Act}
use rootlesskit.StateDir.{
  System, Call, mkdir_all, read_dir, remove_all, try_lock, unlock, lock_name, mkdir_failed,
  remove_failed, lock_state_dir, try_lock_at, list_dir, remove_entry, remove_entries, clear,
  init_state_dir, Error,
}

module _ (sys : System) (dir : Bytes) where
  -- The calls that remove the entries but the lock file, on top of the calls before.
  abbrev pub removing : List Bytes → List Call → List Call
  removing [] log = log
  removing (f ∷ fs) log =
      if str_eq f lock_name
      then removing fs log
      else removing fs (remove_all (sys.join dir f) ∷ log)

  remove_entries-ok :
      (fs : List Bytes) (log log' : List Call) {a : Unit {0}}
      → remove_entries sys dir fs log ≡ (ok a, log')
      → log' ≡ removing fs log
  unfolding remove_entries remove_entry
  remove_entries-ok [] log log' h = sym (ap (λ o. o.1) h)
  remove_entries-ok (f ∷ fs) log log' h = elim (Bool-cases (str_eq f lock_name)) [
    | inl t ↦ rw t (remove_entries-ok fs log log' (rw t at h))
    | inr e ↦
        let p = sys.join dir f in
        let (_, mid, e1, e2) =
          act-bind-ok (remove_entry sys p) (λ _. remove_entries sys dir fs) log (rw e at h) in
        let (_, _, e3) =
          call-bind-ok sys.kernel (remove_failed p) (remove_all p) (λ _. pure tt) log e1 in
        rw (e, ap (λ o. o.1) e3) (remove_entries-ok fs mid log' e2)
  ]

  clear-ok :
      (log log' : List Call) {a : Unit {0}}
      → clear sys dir log ≡ (ok a, log')
      → log' ≡ removing (sys.entries log dir) (read_dir dir ∷ log)
  unfolding clear list_dir
  clear-ok log log' h =
      let (fs, mid, e1, e2) = act-bind-ok (list_dir sys dir) (remove_entries sys dir) log h in
      let listed : fs ≡ sys.entries log dir = ground arith in
      let called : mid ≡ read_dir dir ∷ log = ground arith in
      rw (← listed, ← called) (remove_entries-ok fs mid log' e2)

  lock_state_dir-ok :
      (path : Bytes) (log mid : List Call)
      → lock_state_dir sys dir log ≡ (ok path, mid)
      → (path ≡ sys.join dir lock_name) × (mid ≡ try_lock (sys.join dir lock_name) ∷ log)
  unfolding lock_state_dir try_lock_at
  lock_state_dir-ok path log mid h = ground arith

deferring-ok :
    (c : Call) (m : Act Call Error (Unit {0})) (log log' : List Call) {a : Unit {0}}
    → deferring c m log ≡ (ok a, log')
    → (end : List Call) × (m log ≡ (ok a, end)) × (log' ≡ c ∷ end)
deferring-ok c m log log' h =
    ((m log).1, ap (λ r. (r, (m log).1)) (ap (λ o. o.0) h), sym (ap (λ o. o.1) h))

-- Where InitStateDir succeeds, its calls were these: it made the directory, took the lock, listed
-- the directory, removed every entry that was listed but the lock file, in order, and released the
-- lock.
pub init_state_dir-removing :
    (sys : System) (dir : Bytes) (log log' : List Call) {a : Unit {0}}
    → init_state_dir sys dir log ≡ (ok a, log')
    → let lock = sys.join dir lock_name in
      let locked = try_lock lock ∷ mkdir_all dir ∷ log in
      log' ≡ unlock lock ∷ removing sys dir (sys.entries locked dir) (read_dir dir ∷ locked)
unfolding init_state_dir
init_state_dir-removing sys dir log log' h =
    let rest = λ (lock : Bytes). deferring (unlock lock) (clear sys dir) in
    let (_, _, h1) =
      call-bind-ok sys.kernel mkdir_failed (mkdir_all dir) (λ _. lock_state_dir sys dir >>= rest)
        log h in
    let made = mkdir_all dir ∷ log in
    let (path, mid, e1, e2) = act-bind-ok (lock_state_dir sys dir) rest made h1 in
    let (at_lock, called) = lock_state_dir-ok sys dir path made mid e1 in
    let (end, e3, last) = deferring-ok (unlock path) (clear sys dir) mid log' e2 in
    last ∙ joined at_lock called (clear-ok sys dir mid end e3)
  where
    joined :
        {path lock : Bytes} {mid locked end : List Call}
        → path ≡ lock
        → mid ≡ locked
        → end ≡ removing sys dir (sys.entries mid dir) (read_dir dir ∷ mid)
        → unlock path ∷ end
          ≡ unlock lock ∷ removing sys dir (sys.entries locked dir) (read_dir dir ∷ locked)
    joined p q e = rw (← p, ← q, e) refl
