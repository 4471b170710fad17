-- ===== src/StateDir/Locked.antt =====
-- What is removed from the state directory while its lock is held, and with it.
use rootlesskit.Base.{
  if◌then◌else◌, Bool-cases, ◌≡◌, refl, subst, inl, inr, Bool, true, false, List, [], ◌∷◌, Result,
  ok, err,
}
use rootlesskit.Text.{Bytes, str_eq, str_eq_refl}
use rootlesskit.Calls.{Act, ◌>>=◌, deferring, Keeps, bind-Keeps, act-bind, call-bind, pure}
use rootlesskit.StateDir.{
  System, Call, Error, mkdir_all, read_dir, remove_all, try_lock, unlock, lock_name, mkdir_failed,
  remove_failed, try_lock_at, lock_state_dir, list_dir, remove_entry, remove_entries, clear,
  init_state_dir, holds, read_dir_failed, lock_failed, is_locked,
}

module _ (sys : System) (dir : Bytes) where
  abbrev pub lock_path : Bytes
  lock_path = sys.join dir lock_name

  -- Each removal was made while the lock was held, and its path is that of an entry of the state
  -- directory other than the lock file.
  abbrev pub RemovesLocked : List Call → Type 0
  RemovesLocked [] = Unit
  RemovesLocked (remove_all p ∷ log) =
      (holds sys lock_path log ≡ true)
      × ((f : Bytes) × (p ≡ sys.join dir f) × (str_eq f lock_name ≡ false))
      × RemovesLocked log
  RemovesLocked (c ∷ log) = RemovesLocked log

  -- That, and whether the lock is held now.
  abbrev pub During : Bool → List Call → Type 0
  During b log = RemovesLocked log × (holds sys lock_path log ≡ b)

  list_dir-During : Keeps (During true) (list_dir sys dir)
  unfolding list_dir holds
  list_dir-During log h =
      elim (sys.kernel log (read_dir dir))
        as (λ r.
          During true
            (elim r as (λ _. Result Error (List Bytes) × List Call) [
              | ok _ ↦ (ok (sys.entries log dir), read_dir dir ∷ log)
              | err e ↦ (err (read_dir_failed e), read_dir dir ∷ log)
            ]).1) [ ok _ ↦ h | err e ↦ h ]

  remove_entry-During :
      (f : Bytes)
      → str_eq f lock_name ≡ false
      → Keeps (During true) (remove_entry sys (sys.join dir f))
  unfolding remove_entry holds
  remove_entry-During f other log h =
      let p = sys.join dir f in
      call-bind (λ o. During true o.1) sys.kernel (remove_failed p) (remove_all p) (λ _. pure tt)
        log (λ _ _. ((h.1, (f, refl, other), h.0), h.1))
        (λ _ _. ((h.1, (f, refl, other), h.0), h.1))

  remove_entries-During : (fs : List Bytes) → Keeps (During true) (remove_entries sys dir fs)
  unfolding remove_entries
  remove_entries-During [] log h = h
  remove_entries-During (f ∷ fs) log h = elim (Bool-cases (str_eq f lock_name)) [
    | inl t ↦ rw t (remove_entries-During fs log h)
    | inr e ↦ rw e (
        bind-Keeps (During true) (remove_entry sys (sys.join dir f))
          (λ _. remove_entries sys dir fs) (remove_entry-During f e) (λ _. remove_entries-During fs)
          log h)
  ]

  clear-During : Keeps (During true) (clear sys dir)
  unfolding clear
  clear-During =
      bind-Keeps (During true) (list_dir sys dir) (remove_entries sys dir) list_dir-During
        remove_entries-During

  -- However the attempt ends, the lock is held after it just if it succeeded.
  abbrev Taken : Result Error Bytes × List Call → Type 0
  Taken (ok path, log) = (path ≡ lock_path) × During true log
  Taken (err e, log) = During false log

  lock_state_dir-Taken : (log : List Call) → During false log → Taken (lock_state_dir sys dir log)
  unfolding lock_state_dir try_lock_at holds
  lock_state_dir-Taken log h = split (sys.kernel log (try_lock lock_path)) refl
    where
      free : Bool
      free = sys.is_free log lock_path

      after : List Call
      after = try_lock lock_path ∷ log

      split :
          (r : Result Bytes Bytes)
          → sys.kernel log (try_lock lock_path) ≡ r
          → Taken (elim r as (λ _. Result Error Bytes × List Call) [
            | err e ↦ (err (lock_failed lock_path e), after)
            | ok _ ↦ if free then (ok lock_path, after) else (err (is_locked lock_path), after)
          ])
      split (err e) same = (h.0, (rw (str_eq_refl lock_path, same) h.1))
      split (ok x) same = elim (Bool-cases free) [
        | inl t ↦ rw t (refl, (h.0, rw (str_eq_refl lock_path, same, t) refl))
        | inr f ↦ rw f (h.0, rw (str_eq_refl lock_path, same, f) h.1)
      ]

  deferred-During : (log : List Call) → During true log → During false (unlock lock_path ∷ log)
  unfolding holds
  deferred-During log h = (h.0, rw (str_eq_refl lock_path) refl)

  -- What follows on the lock ends without it, if it does where the lock was taken.
  locked :
      {A : Type 0} (rest : Bytes → Act Call Error A) (log : List Call)
      → During false log
      → ((mid : List Call) → During true mid → During false (rest lock_path mid).1)
      → During false ((lock_state_dir sys dir >>= rest) log).1
  locked rest log h then_rest =
      let taken = lock_state_dir-Taken log h in
      act-bind (λ o. During false o.1) (lock_state_dir sys dir) rest log
        (λ path mid e.
          let (same, during) : Taken (ok path, mid) = subst Taken e taken in
          rw same (then_rest mid during))
        (λ x mid e. subst Taken e taken)

-- InitStateDir removes entries of the state directory only while it holds the lock, and never the
-- lock file; so it removes nothing where another process has the lock. However it ends, it does not
-- hold the lock afterwards.
pub init_state_dir-During :
    (sys : System) (dir : Bytes) (log : List Call)
    → During sys dir false log
    → During sys dir false (init_state_dir sys dir log).1
unfolding init_state_dir holds
init_state_dir-During sys dir log h =
    let rest = λ (lock : Bytes). deferring (unlock lock) (clear sys dir) in
    call-bind (λ o. During sys dir false o.1) sys.kernel mkdir_failed (mkdir_all dir)
      (λ _. lock_state_dir sys dir >>= rest) log
      (λ _ _.
        locked sys dir rest (mkdir_all dir ∷ log) h
          (λ mid d. deferred-During sys dir (clear sys dir mid).1 (clear-During sys dir mid d)))
      (λ _ _. h)
