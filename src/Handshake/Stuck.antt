-- ===== src/Handshake/Stuck.antt =====
-- A child whose port driver has failed.
use rootlesskit.Base.{any, ◌≡◌, Bool, true, false, ◌&&◌, List, ◌∷◌}
use rootlesskit.Handshake.Points.{has}
use rootlesskit.Handshake.System.{Reach}
use rootlesskit.Handshake.{Action, act, stop_child_driver, driver_failed, Task}
use rootlesskit.Handshake.System.{
  parent, child, System, Step, Break, Notice, is_finished, Side, same_task, Reach,
}

-- The target command has ended and the child sends to portQuitCh, but its port driver has failed.
pub record IsStuck (s : System) : Type 0 where
  pub lives : s.alive child ≡ true
  pub failed : is_finished driver_failed s ≡ true
  pub next : List Action
  pub at : s.rest child ≡ act stop_child_driver ∷ next

-- The send to portQuitCh comes after another action.
abbrev pub IsAhead : List Action → Type 0
IsAhead p = (a : Action) × (r : List Action) × (p ≡ a ∷ r) × (has stop_child_driver r ≡ true)

module _ (d : Bool) (kernel : Bool → Bool) where
  -- The states that any number of steps and failures lead to.
  pub data Later (s : System) : System → Type 0 where
    now : Later s s
    goes_on : {t u : System} → Later s t → Step d kernel t u → Later s u
    breaks : {t u : System} → Later s t → Break d kernel t u → Later s u
    notices : {t u : System} → Later s t → Notice d kernel t u → Later s u

-- The task to stop the driver is not the parent's, and the driver's failure is no task of a script.
record AreApart (rest : Side → List Action) : Type 0 where
  parent_stops : has stop_child_driver (rest parent) ≡ false
  no_failure : (i : Side) → has driver_failed (rest i) ≡ false

module _ (d : Bool) (kernel : Bool → Bool) where
  abbrev NotBoth : List Task → Type 0
  NotBoth done =
      (any (same_task driver_failed) done && any (same_task stop_child_driver) done) ≡ false
