-- ===== src/Setup/Reaper/ExitCode.antt =====
-- The exit code of the program is that of the target command.
use rootlesskit.Base.{
  ℕ, zero, suc, ◌%◌, ◌<◌, ◌≡◌, refl, ◌∙◌, ◌≢◌, ◌⊎◌, inl, inr, Bool, true, false, Option, none, some,
  List, [], ◌∷◌, arith,
}
use rootlesskit.Setup.Reaper.{
  WaitStatus, exited, signaled, stopped, exit_status, is_success, Error, exit_error, reaper_error,
  Waited, process, nothing, reap_from, reaped, run_and_reap, cmd_wait, child_end, parent_end,
  main_end, os_exit, code_or_one, get_exec_exit_status,
}

-- The answers of a call of reap do not name the command.
abbrev pub Silent : ℕ → List Waited → Type 0
Silent my_pid [] = Unit
Silent my_pid (nothing ∷ answers) = Unit
Silent my_pid (process pid ws ∷ answers) = (pid ≢ my_pid) × Silent my_pid answers

-- The status that the command is to end with is reported among the answers, before any that names
-- no process, and the command is not reported again in them.
abbrev pub Reports : ℕ → WaitStatus → List Waited → Type 0
Reports my_pid ws [] = ⊥
Reports my_pid ws (nothing ∷ answers) = ⊥
Reports my_pid ws (process pid s ∷ answers) =
    ((pid ≡ my_pid) × (s ≡ ws) × Silent my_pid answers)
    ⊎ ((pid ≢ my_pid) × Reports my_pid ws answers)

-- The command is reported to one of the calls, for one of the signals, and not before.
abbrev pub Ends : ℕ → WaitStatus → List (List Waited) → Type 0
Ends my_pid ws [] = ⊥
Ends my_pid ws (answers ∷ signals) =
    Reports my_pid ws answers ⊎ (Silent my_pid answers × Ends my_pid ws signals)

reap_from-Silent :
    (my_pid : ℕ) (answers : List Waited) (res : Option WaitStatus)
    → Silent my_pid answers
    → reap_from my_pid answers res ≡ res
unfolding reap_from
reap_from-Silent my_pid [] res h = refl
reap_from-Silent my_pid (nothing ∷ answers) res h = refl
reap_from-Silent my_pid (process pid ws ∷ answers) res h =
    ground (arith, h.0, reap_from-Silent my_pid answers res h.1)

reap_from-Reports :
    (my_pid : ℕ) (ws : WaitStatus) (answers : List Waited) (res : Option WaitStatus)
    → Reports my_pid ws answers
    → reap_from my_pid answers res ≡ some ws
unfolding reap_from
reap_from-Reports my_pid ws [] res h = absurd h
reap_from-Reports my_pid ws (nothing ∷ answers) res h = absurd h
reap_from-Reports my_pid ws (process pid s ∷ answers) res (inl (e, same, silent)) =
    ground (arith, reap_from-Silent my_pid answers (some s) silent)
reap_from-Reports my_pid ws (process pid s ∷ answers) res (inr (ne, rest)) =
    ground (arith, reap_from-Reports my_pid ws answers res rest)

run_and_reap-Ends :
    (my_pid : ℕ) (ws : WaitStatus) (signals : List (List Waited))
    → Ends my_pid ws signals
    → run_and_reap my_pid signals ≡ some (reaped ws)
unfolding run_and_reap
run_and_reap-Ends my_pid ws [] h = absurd h
run_and_reap-Ends my_pid ws (answers ∷ signals) (inl h) =
    rw (reap_from-Reports my_pid ws answers none h) refl
run_and_reap-Ends my_pid ws (answers ∷ signals) (inr (silent, h)) =
    rw (reap_from-Silent my_pid answers none silent) (run_and_reap-Ends my_pid ws signals h)

-- The code that a shell shows: that of the command, or 255 if a signal has ended it.
abbrev pub shown : WaitStatus → ℕ
shown (exited n) = n
shown _ = 255

abbrev pub IsFinal : WaitStatus → Type 0
IsFinal (exited n) = n < 256
IsFinal (signaled n) = Unit
IsFinal stopped = ⊥

through :
    (ws : WaitStatus) (e : Error)
    → (get_exec_exit_status (Error.wrapped e) ≡ some (exit_status ws))
    → IsFinal ws
    → main_end (some (Error.wrapped e)) ≡ exited (shown ws)
unfolding main_end exit_status os_exit code_or_one
through (exited n) e h f =
    let small : n % 256 ≡ n = omega arith in rw (h, small, code_or_one, os_exit) refl
through (signaled n) e h f = rw h refl
through stopped e h f = absurd f

reaped-suc : (n : ℕ) → reaped (exited (suc n)) ≡ some (reaper_error (exited (suc n)))
unfolding reaped is_success
reaped-suc n = ground arith

cmd_wait-suc : (n : ℕ) → cmd_wait (exited (suc n)) ≡ some (exit_error (exited (suc n)))
unfolding cmd_wait is_success
cmd_wait-suc n = ground arith

-- Each program on the way passes the status on.
child_passes :
    (ws : WaitStatus) (r : Option Error)
    → (r ≡ reaped ws) ⊎ (r ≡ cmd_wait ws)
    → IsFinal ws
    → main_end (child_end r none) ≡ exited (shown ws)
unfolding child_end reaped cmd_wait is_success main_end get_exec_exit_status
child_passes (exited zero) r (inl e) f = rw e refl
child_passes (exited zero) r (inr e) f = rw e refl
child_passes (exited (suc n)) r (inl e) f =
    rw (e ∙ reaped-suc n) (through (exited (suc n)) (reaper_error (exited (suc n))) refl f)
child_passes (exited (suc n)) r (inr e) f =
    rw (e ∙ cmd_wait-suc n) (through (exited (suc n)) (exit_error (exited (suc n))) refl f)
child_passes (signaled n) r (inl e) f =
    rw e (through (signaled n) (reaper_error (signaled n)) refl f)
child_passes (signaled n) r (inr e) f = rw e (through (signaled n) (exit_error (signaled n)) refl f)
child_passes stopped r from f = absurd f

parent_passes : (n : ℕ) → n < 256 → main_end (parent_end (exited n) none none) ≡ exited n
unfolding parent_end main_end get_exec_exit_status
parent_passes zero h = refl
parent_passes (suc n) h =
    rw (cmd_wait-suc n, parent_end) (through (exited (suc n)) (exit_error (exited (suc n))) refl h)

shown_small : (ws : WaitStatus) → IsFinal ws → shown ws < 256
shown_small (exited n) f = f
shown_small (signaled n) f = omega arith
shown_small stopped f = absurd f

-- `runAndReap` with the reaper, `runWithoutReap` without.
abbrev pub command_result : Bool → ℕ → WaitStatus → List (List Waited) → Option (Option Error)
command_result true my_pid ws signals = run_and_reap my_pid signals
command_result false my_pid ws signals = some (cmd_wait ws)

-- Where the target command exits with a code or is ended by a signal, and nothing else fails, the
-- child's program exits with the code of the command, or 255, and so does the parent's; with the
-- reaper as without. With the reaper, it is a premise that the command is reported once, for one
-- of the signals, however many other processes are.
pub exit_code :
    (reaper : Bool) (my_pid : ℕ) (ws : WaitStatus) (signals : List (List Waited))
    → IsFinal ws
    → Ends my_pid ws signals
    → (r : Option Error) × (command_result reaper my_pid ws signals ≡ some r)
      × (main_end (child_end r none) ≡ exited (shown ws))
      × (main_end (parent_end (main_end (child_end r none)) none none) ≡ exited (shown ws))
exit_code true my_pid ws signals f h =
    let child = child_passes ws (reaped ws) (inl refl) f in
    (
      reaped ws,
      run_and_reap-Ends my_pid ws signals h,
      child,
      rw child (parent_passes (shown ws) (shown_small ws f)),
    )
exit_code false my_pid ws signals f h =
    let child = child_passes ws (cmd_wait ws) (inr refl) f in
    (cmd_wait ws, refl, child, rw child (parent_passes (shown ws) (shown_small ws f)))
