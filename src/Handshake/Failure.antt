-- ===== src/Handshake/Failure.antt =====
-- A child that fails before it has sent its messages.
use rootlesskit.Base.{
  length, ℕ, ◌≤◌, ◌≡◌, refl, ap, ◌≢◌, ◌⊎◌, inl, inr, Bool, true, false, List, [], ◌∷◌, arith,
}
use rootlesskit.Handshake.{Kind, Action, send, wait, act, gain_caps, await_ports, await_exit}
use rootlesskit.Handshake.System.{parent, child, System, Reach, Step, Notice, sends, acts}
use rootlesskit.Handshake.Queues.{to_send, to_receive}
use rootlesskit.Handshake.Points.{awaits, heard_all, to_receive_count}
use rootlesskit.Handshake.Scripts.{heard_all-drop}
use rootlesskit.Handshake.Invariant.{Grants, Inv, Reach-Inv}
use rootlesskit.Handshake.Progress.{CanMove, Blocked, wait_move, no_exec, counts}
use rootlesskit.Handshake.Unnoticed.{failure_unnoticed}

module _ (d : Bool) (kernel : Bool → Bool) (grants : Grants kernel) (n : ℕ) (s : System)
    (reach : Reach d kernel n s) where
  invariant : Inv d s
  invariant = Reach-Inv d kernel grants reach

  -- The parent waits, and nothing goes on.
  abbrev pub Hangs : Type 0
  Hangs =
      Blocked d kernel s parent × ((t : System) → (¬ Step d kernel s t) × (¬ Notice d kernel s t))

  heard : awaits (s.rest parent) ≡ true → length (to_receive (s.rest parent)) ≡ 0
  unfolding heard_all to_receive_count
  heard a =
      let (m, here) = invariant.at parent in
      let h : heard_all (s.rest parent) ≡ true = rw here (heard_all-drop d m) in
      ground (arith, h, a)

  unheard :
      (k : Kind) (ks : List Kind)
      → to_send (s.rest child) ≡ k ∷ ks
      → 1 ≤ length (to_receive (s.rest parent))
  unheard k ks e = omega (arith, counts s parent invariant.balanced, ap length e)

  parent_stays :
      (p : List Action)
      → s.alive child ≡ false
      → s.alive parent ≡ true
      → 1 ≤ length (to_receive (s.rest parent))
      → s.rest parent ≡ p
      → CanMove d kernel s ⊎ Hangs
  unfolding to_receive awaits
  parent_stays [] dead a more e = absurd (omega (arith, more, ap (λ x. length (to_receive x)) e))
  parent_stays (send k ∷ p) dead a more e = inl (_, inl (sends parent k p a e))
  parent_stays (wait l ∷ p) dead a more e =
      elim (wait_move d kernel grants n s reach parent l p (s.inbox parent) a e refl) [
        | inl m ↦ inl m
        | inr (k, r, f, q) ↦ inr ((k, r, f, q), λ t. failure_unnoticed d kernel s t k r dead f q)
      ]
  parent_stays (act t ∷ p) dead a more e = inl (_, inl (acts parent t p a e refl))
  parent_stays (gain_caps ∷ p) dead a more e = absurd (no_exec d kernel grants n s reach p e)
  parent_stays (await_ports ∷ p) dead a more e = absurd (omega (arith, more, heard (rw e refl)))
  parent_stays (await_exit ∷ p) dead a more e = absurd (omega (arith, more, heard (rw e refl)))

  -- In every reachable state in which the child has failed with a message still to send, and the
  -- parent has not failed, the parent has not come to its end, and either a process goes on, or
  -- the parent waits for a message that is not in the pipe and no step is left: no call returns,
  -- and no process notices an error. The kernel is taken to give capabilities to an executed
  -- process just if its ID map is set up.
  pub parent-Hangs :
      (k : Kind) (ks : List Kind)
      → s.alive child ≡ false
      → s.alive parent ≡ true
      → to_send (s.rest child) ≡ k ∷ ks
      → (s.rest parent ≢ []) × (CanMove d kernel s ⊎ Hangs)
  unfolding to_receive
  parent-Hangs k ks dead a e =
      let more = unheard k ks e in
      (
        λ done. absurd (omega (arith, more, ap (λ x. length (to_receive x)) done)),
        parent_stays (s.rest parent) dead a more refl,
      )
