-- ===== src/Handshake/Unnoticed.antt =====
-- What the parent does when the child fails.
use rootlesskit.Base.{◌≡◌, Bool, false, List, [], ◌∷◌, arith}
use rootlesskit.Handshake.{Kind, Action, wait}
use rootlesskit.Handshake.System.{
  parent, child, System, Step, Notice, sends, receives, acts, executes, sees_ports, sees_exit,
  refuses, sees_end, sees_failure,
}

module _ (d : Bool) (kernel : Bool → Bool) where
  -- Where the child has failed and the parent waits for a message that is not in the pipe, the
  -- parent waits for ever: no call returns, and no process notices an error.
  pub failure_unnoticed :
      (s t : System) (k : Kind) (r : List Action)
      → s.alive child ≡ false
      → s.rest parent ≡ wait k ∷ r
      → s.inbox parent ≡ []
      → (¬ Step d kernel s t) × (¬ Notice d kernel s t)
  failure_unnoticed s t k r dead e f = (no_step s t dead e f, no_notice s t dead e f)
    where
      no_step :
          (s t : System)
          → s.alive child ≡ false
          → s.rest parent ≡ wait k ∷ r
          → s.inbox parent ≡ []
          → ¬ Step d kernel s t
      no_step s t dead e f (sends parent l q a x) = absurd (ground (arith, e, x))
      no_step s t dead e f (sends child l q a x) = absurd (ground (arith, dead, a))
      no_step s t dead e f (receives parent l q w a x y) = absurd (ground (arith, f, y))
      no_step s t dead e f (receives child l q w a x y) = absurd (ground (arith, dead, a))
      no_step s t dead e f (acts parent u q a x y) = absurd (ground (arith, e, x))
      no_step s t dead e f (acts child u q a x y) = absurd (ground (arith, dead, a))
      no_step s t dead e f (executes q a x) = absurd (ground (arith, dead, a))
      no_step s t dead e f (sees_ports q a x y) = absurd (ground (arith, e, x))
      no_step s t dead e f (sees_exit q a x y z) = absurd (ground (arith, e, x))

      no_notice :
          (s t : System)
          → s.alive child ≡ false
          → s.rest parent ≡ wait k ∷ r
          → s.inbox parent ≡ []
          → ¬ Notice d kernel s t
      no_notice s t dead e f (refuses parent l m q w a x y z) = absurd (ground (arith, f, y))
      no_notice s t dead e f (refuses child l m q w a x y z) = absurd (ground (arith, dead, a))
      no_notice s t dead e f (sees_end l q a x y z) = absurd (ground (arith, dead, a))
      no_notice s t dead e f (sees_failure q a x y) = absurd (ground (arith, e, x))
