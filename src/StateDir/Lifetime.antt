-- ===== src/StateDir/Lifetime.antt =====
-- What Parent does with the state directory and its lock.
use rootlesskit.Base.{
  ℕ, suc, ◌≡◌, refl, ap, ◌∙◌, subst, ◌⊎◌, inl, inr, true, List, [], ◌∷◌, arith, Result, ok, err,
}
use rootlesskit.Text.{Bytes, str_eq_refl}
use rootlesskit.Calls.{Act, ◌>>=◌, ◌>>◌, deferring, act-bind}
use rootlesskit.Spawn.{Opt}
use rootlesskit.StateDir.{
  System, Call, Error, remove_all, unlock, check_preflight, check_dir, create_cleanup_lock,
  try_lock_at, lock_state_dir, parent, holds,
}
use rootlesskit.StateDir.Locked.{lock_path}

-- How many removals were made.
abbrev removals : List Call → ℕ
removals [] = 0
removals (remove_all p ∷ log) = suc (removals log)
removals (c ∷ log) = removals log

-- Nothing was removed since the calls of `log`.
abbrev pub Untouched : List Call → List Call → Type 0
Untouched log log' = removals log' ≡ removals log

module _ (sys : System) (opt : Opt) where
  check_preflight-Untouched : (log : List Call) → Untouched log (check_preflight sys opt log).1
  unfolding check_preflight check_dir
  check_preflight-Untouched log = ground arith

  create_cleanup_lock-Untouched :
      (dir : Bytes) (log : List Call) → Untouched log (create_cleanup_lock sys dir log).1
  unfolding create_cleanup_lock
  create_cleanup_lock-Untouched dir log = ground arith

  -- The lock was not taken and nothing was removed; or the rest was run with the lock, then the lock
  -- was released and, without it, the directory removed.
  abbrev pub Ended :
      List Call → Act Call Error (Unit {0}) → Result Error (Unit {0}) × List Call → Type 0
  Ended log run (r, log') =
      ((e : Error) × (r ≡ err e) × Untouched log log')
      ⊎ ((locked before : List Call) × (holds sys (lock_path sys opt.state_dir) locked ≡ true)
          × ((r, before) ≡ run locked)
          × (log' ≡ remove_all opt.state_dir ∷ unlock (lock_path sys opt.state_dir) ∷ before))

  lock_state_dir-locked :
      (log mid : List Call) (path : Bytes)
      → lock_state_dir sys opt.state_dir log ≡ (ok path, mid)
      → (path ≡ lock_path sys opt.state_dir) × (holds sys (lock_path sys opt.state_dir) mid ≡ true)
  unfolding lock_state_dir try_lock_at holds
  lock_state_dir-locked log mid path h = ground (arith, str_eq_refl (lock_path sys opt.state_dir))

  lock_state_dir-Untouched :
      (log : List Call) → Untouched log (lock_state_dir sys opt.state_dir log).1
  unfolding lock_state_dir try_lock_at
  lock_state_dir-Untouched log = ground arith

-- An action that removes nothing does not change the number.
and_then :
    {A : Type 0} (m : Act Call Error A)
    → ((log : List Call) → Untouched log (m log).1)
    → {log mid : List Call} {r : Result Error A} {n : ℕ} → m log ≡ (r, mid)
    → removals log ≡ n
    → removals mid ≡ n
and_then m quiet {log} e h = subst (λ o. Untouched log o.1) e (quiet log) ∙ h

-- Parent either fails before it has the lock of the state directory, and then it has removed
-- nothing; or it runs what follows while it holds the lock, and after that, whatever the result, it
-- releases the lock and then, without the lock, removes the directory. The result is that of what
-- follows.
pub parent-Ended :
    (sys : System) (opt : Opt) (run : Act Call Error (Unit {0})) (log : List Call)
    → Ended sys opt log run (parent sys opt run log)
unfolding parent
parent-Ended sys opt run log =
    let dir = opt.state_dir in
    let rest = λ (lock : Bytes). deferring (remove_all dir) (deferring (unlock lock) run) in
    let locking = lock_state_dir sys dir >>= rest in
    let Q = Ended sys opt log run in
    let checks = check_preflight sys opt in
    let cleanup = create_cleanup_lock sys dir in
    let q1 = check_preflight-Untouched sys opt in
    let q2 = create_cleanup_lock-Untouched sys opt dir in
    let q3 = lock_state_dir-Untouched sys opt in
    let at_lock : (l2 : List Call) → removals l2 ≡ removals log → Q (locking l2) = λ l2 u2.
      act-bind Q (lock_state_dir sys dir) rest l2
        (λ path l3 e3.
          let (same, held) = lock_state_dir-locked sys opt l2 l3 path e3 in
          let last = ap (λ p. remove_all dir ∷ unlock p ∷ (run l3).1) same in
          inr (l3, (run l3).1, held, refl, last))
        (λ e l3 e3. inl (e, refl, and_then (lock_state_dir sys dir) q3 e3 u2)) in
    act-bind Q checks (λ _. cleanup >> locking) log
      (λ _ l1 e1.
        let u1 : removals l1 ≡ removals log = and_then checks q1 e1 refl in
        act-bind Q cleanup (λ _. locking) l1 (λ _ l2 e2. at_lock l2 (and_then cleanup q2 e2 u1))
          (λ e l2 e2. inl (e, refl, and_then cleanup q2 e2 u1)))
      (λ e l1 e1. inl (e, refl, and_then checks q1 e1 refl))
