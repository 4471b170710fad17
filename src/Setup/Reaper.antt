-- ===== src/Setup/Reaper.antt =====
-- How the end of the target command becomes the exit code of the program: reap, runAndReap and
-- runWithoutReap of pkg/child/child.go, the ends of Child and of Parent (pkg/parent/parent.go),
-- GetExecExitStatus of pkg/common/exec.go and the end of main (cmd/rootlesskit/main.go).
pub mod ExitCode
use rootlesskit.Base.{
  ◌==◌, if◌then◌else◌, ℤ, pos, negsuc, ℕ, ◌-◌, ◌%◌, Bool, false, Option, none, some, List, [], ◌∷◌,
}

-- `syscall.WaitStatus`.
pub data WaitStatus : Type 0 where
  exited signaled : ℕ → WaitStatus
  stopped : WaitStatus

-- `ws.ExitStatus()`.
unfoldable pub exit_status : WaitStatus → ℤ
exit_status (exited n) = pos n
exit_status _ = negsuc 0

-- `ws.Exited() && ws.ExitStatus() == 0`.
unfoldable pub is_success : WaitStatus → Bool
is_success (exited n) = n == 0
is_success _ = false

-- Errors, as far as errors.Unwrap and a type assertion look at them. The first is *exec.ExitError,
-- of `cmd.Wait`, the second is *reaperErr; both are ErrorWithSys.
pub data Error : Type 0 where
  exit_error reaper_error : WaitStatus → Error
  other : Error
  -- `fmt.Errorf("...: %w", err)`.
  wrapped : Error → Error

-- What `syscall.Wait4(-1, &ws, WNOHANG, nil)` answers.
pub data Waited : Type 0 where
  process : ℕ → WaitStatus → Waited
  -- No child has ended, or an error.
  nothing : Waited

-- `reap`: the answers up to the first that names no process; the status of `my_pid` that came last.
unfoldable pub reap_from : ℕ → List Waited → Option WaitStatus → Option WaitStatus
reap_from my_pid [] res = res
reap_from my_pid (nothing ∷ answers) res = res
reap_from my_pid (process pid ws ∷ answers) res =
    reap_from my_pid answers (if pid == my_pid then some ws else res)

unfoldable pub reap : ℕ → List Waited → Option WaitStatus
unfolding reap_from
reap my_pid answers = reap_from my_pid answers none

unfoldable pub reaped : WaitStatus → Option Error
unfolding is_success
reaped ws = if is_success ws then none else some (reaper_error ws)

report : Option WaitStatus → Option (Option Error) → Option (Option Error)
unfolding reaped
report none rest = rest
report (some ws) rest = some (reaped ws)

-- `runAndReap` from the start of the command on; one list of answers for each SIGCHLD. The first
-- result is the one that is received, `none` if none has come.
unfoldable pub run_and_reap : ℕ → List (List Waited) → Option (Option Error)
unfolding report reap
run_and_reap my_pid [] = none
run_and_reap my_pid (answers ∷ signals) = report (reap my_pid answers) (run_and_reap my_pid signals)

-- `cmd.Wait()`.
unfoldable pub cmd_wait : WaitStatus → Option Error
unfolding is_success
cmd_wait ws = if is_success ws then none else some (exit_error ws)

-- The end of Child: the command's result, and that of the port driver if there is one.
unfoldable pub child_end : Option Error → Option Error → Option Error
child_end (some e) port = some (wrapped e)
child_end none port = port

-- The end of Parent: what `cmd.Wait` answered, the closing of the API, and the port driver.
unfoldable pub parent_end : WaitStatus → Option Error → Option Error → Option Error
unfolding cmd_wait
parent_end ws closed port = elim (cmd_wait ws) [
  | some e ↦ some (wrapped e)
  | none ↦ elim closed [ some e ↦ some (wrapped e) | none ↦ port ]
]

unwrap : Error → Option Error
unwrap (wrapped e) = some e
unwrap _ = none

status_of : Option Error → Option ℤ
unfolding exit_status
status_of (some (exit_error ws)) = some (exit_status ws)
status_of (some (reaper_error ws)) = some (exit_status ws)
status_of _ = none

-- `GetExecExitStatus`.
unfoldable pub get_exec_exit_status : Error → Option ℤ
unfolding unwrap status_of
get_exec_exit_status e = status_of (unwrap e)

code_or_one : Option ℤ → ℤ
code_or_one none = pos 1
code_or_one (some code) = code

-- `os.Exit(code)`: the status that the parent process sees.
unfoldable pub os_exit : ℤ → WaitStatus
os_exit (pos n) = exited (n % 256)
os_exit (negsuc n) = exited ((255 - n % 256) % 256)

-- The end of main.
unfoldable pub main_end : Option Error → WaitStatus
unfolding code_or_one os_exit get_exec_exit_status
main_end none = exited 0
main_end (some e) = os_exit (code_or_one (get_exec_exit_status e))
