-- ===== src/Handshake/Progress.antt =====
-- No deadlock while neither the child nor its port driver has failed.
use rootlesskit.Base.{
  length, length-append, ◌==◌, Bool-cases, ℕ, zero, suc, ◌+◌, ◌≤◌, ◌≡◌, refl, sym, ap, ◌∙◌, subst,
  ◌⊎◌, inl, inr, Bool, true, false, ◌||◌, List, [], ◌∷◌, arith,
}
use rootlesskit.Handshake.{
  Kind, Action, send, wait, act, gain_caps, await_ports, await_exit, child_script, capable_script,
  start_child_driver, when, Task, driver_failed,
}
use rootlesskit.Handshake.System.{
  Side, parent, child, other, System, is_finished, Reach, task_id, Step, Notice, sends, receives,
  acts, executes, sees_ports, sees_exit, sees_end, blocks,
}
use rootlesskit.Handshake.Queues.{to_send, to_receive, Balanced}
use rootlesskit.Handshake.Points.{
  has, is_act, waits, awaits, never_awaits, late, at_exec, parent_gap, child_gap, to_send_count,
  to_receive_count,
}
use rootlesskit.Handshake.Scripts.{
  never_awaits-drop, late-drop, parent-ne-exec, parent_gap-drop, child_gap-drop, ports-driver,
}
use rootlesskit.Handshake.Invariant.{Grants, Inv, Reach-Inv}
use rootlesskit.Handshake.Safety.{message_expected}

has_driver_task : has start_child_driver (child_script true false) ≡ true
unfolding has is_act child_script capable_script task_id when
has_driver_task = refl

pub counts :
    (s : System) (i : Side)
    → Balanced s
    → length (s.inbox i) + length (to_send (s.rest (other i))) ≡ length (to_receive (s.rest i))
counts s i b =
    omega (arith, length-append (s.inbox i) (to_send (s.rest (other i))), ap length (b i))

gap_cases : (m n : ℕ) → (m == 0 || n == m + 2) ≡ true → (m ≡ 0) ⊎ (n ≡ m + 2)
gap_cases zero n h = inl refl
gap_cases (suc m) n h = inr (ground arith)

-- Two processes never both wait on an empty pipe.
no_cycle :
    (d : Bool) (s : System) (k l : Kind) (r q : List Action)
    → Inv d s
    → s.rest parent ≡ wait k ∷ r
    → s.rest child ≡ wait l ∷ q
    → s.inbox parent ≡ []
    → s.inbox child ≡ []
    → ⊥
unfolding waits parent_gap child_gap to_send_count to_receive_count to_receive
no_cycle d s k l r q v e f e0 f0 =
    let (n, here) = v.at parent in
    let (m, there) = v.at child in
    let gp : parent_gap (s.rest parent) ≡ true = rw here (parent_gap-drop d n) in
    let gc : child_gap (s.rest child) ≡ true = rw there (child_gap-drop d m) in
    let wp : waits (s.rest parent) ≡ true = rw e refl in
    let wc : waits (s.rest child) ≡ true = rw f refl in
    let more : 1 ≤ length (to_receive (s.rest parent)) = rw e (omega arith) in
    let p0 : length (s.inbox parent) ≡ 0 = rw e0 refl in
    let c0 : length (s.inbox child) ≡ 0 = rw f0 refl in
    let one_more : length (to_send (s.rest parent)) ≡ length (to_receive (s.rest parent)) + 1 =
      ground (arith, gp, wp) in
    let gap : (length (to_send (s.rest child)) ≡ 0)
        ⊎ (length (to_receive (s.rest child)) ≡ length (to_send (s.rest child)) + 2) =
      gap_cases (to_send_count (s.rest child)) (to_receive_count (s.rest child))
        (ground (arith, gc, wc)) in
    let to_parent = counts s parent v.balanced in
    let to_child = counts s child v.balanced in
    elim gap [
      | inl g ↦ absurd (omega (arith, one_more, g, more, to_parent, to_child, p0, c0))
      | inr g ↦ absurd (omega (arith, one_more, g, more, to_parent, to_child, p0, c0))
    ]

module _ (d : Bool) (kernel : Bool → Bool) where
  abbrev pub CanMove : System → Type 0
  CanMove s = (t : System) × (Step d kernel s t ⊎ Notice d kernel s t)

  abbrev pub Blocked : System → Side → Type 0
  Blocked s i = (k : Kind) × (r : List Action) × (s.rest i ≡ wait k ∷ r) × (s.inbox i ≡ [])

  module _ (grants : Grants kernel) (n : ℕ) (s : System) (reach : Reach d kernel n s) where
    invariant : Inv d s
    invariant = Reach-Inv d kernel grants reach

    pub wait_move :
        (i : Side) (k : Kind) (r : List Action) (q : List Kind)
        → s.alive i ≡ true
        → s.rest i ≡ wait k ∷ r
        → s.inbox i ≡ q
        → CanMove s ⊎ Blocked s i
    wait_move i k r [] a e f = inr (k, r, e, f)
    wait_move i k r (l ∷ q) a e f =
        let same = message_expected d kernel grants n s reach i k l r q e f in
        inl (_, inl (receives i k r q a e (subst (λ x. s.inbox i ≡ x ∷ q) same f)))

    -- A port driver that has not failed takes the message to stop.
    not_blocked : is_finished driver_failed s ≡ false → (t : Task) → blocks child t s ≡ false
    not_blocked fine t = ground (arith, fine)

    child_move :
        is_finished driver_failed s ≡ false
        → (c : List Action) → s.alive child ≡ true
        → s.rest child ≡ c
        → (s.rest child ≡ []) ⊎ (CanMove s ⊎ Blocked s child)
    unfolding never_awaits awaits
    child_move fine [] a e = inl e
    child_move fine (send k ∷ r) a e = inr (inl (_, inl (sends child k r a e)))
    child_move fine (wait k ∷ r) a e = inr (wait_move child k r (s.inbox child) a e refl)
    child_move fine (act t ∷ r) a e = inr (inl (_, inl (acts child t r a e (not_blocked fine t))))
    child_move fine (gain_caps ∷ r) a e = inr (inl (_, inl (executes r a e)))
    child_move fine (await_ports ∷ r) a e =
        let (m, here) = invariant.at child in
        absurd (
          ground (arith, subst (λ x. never_awaits x ≡ true) (sym here ∙ e) (never_awaits-drop d m)))
    child_move fine (await_exit ∷ r) a e =
        let (m, here) = invariant.at child in
        absurd (
          ground (arith, subst (λ x. never_awaits x ≡ true) (sym here ∙ e) (never_awaits-drop d m)))

    -- What a blocked process waits for is still to be sent.
    fed :
        (i : Side) (k : Kind) (r : List Action)
        → s.rest i ≡ wait k ∷ r
        → s.inbox i ≡ []
        → 1 ≤ length (to_send (s.rest (other i)))
    unfolding to_receive
    fed i k r e f =
        let more : 1 ≤ length (to_receive (s.rest i)) = rw e (omega arith) in
        let none_here : length (s.inbox i) ≡ 0 = rw f refl in
        omega (arith, more, counts s i invariant.balanced, none_here)

    late_sends : awaits (s.rest parent) ≡ true → length (to_send (s.rest parent)) ≡ 0
    unfolding late to_send_count
    late_sends a =
        let (m, here) = invariant.at parent in
        let l : late (s.rest parent) ≡ true = rw here (late-drop d m) in ground (arith, l, a)

    pub no_exec : (p : List Action) → s.rest parent ≡ gain_caps ∷ p → ⊥
    unfolding at_exec
    no_exec p e =
        let (m, here) = invariant.at parent in
        absurd (ground (arith, subst (λ x. at_exec x ≡ false) (sym here ∙ e) (parent-ne-exec d m)))

    driver_started :
        (p : List Action)
        → s.rest parent ≡ await_ports ∷ p
        → s.rest child ≡ []
        → is_finished start_child_driver s ≡ true
    unfolding has
    driver_started p e f =
        let (m, here) = invariant.at parent in
        let driver = ports-driver d m p (sym here ∙ e) in
        let ahead : has start_child_driver (child_script d false) ≡ true =
          subst (λ x. has start_child_driver (child_script x false) ≡ true) (sym driver)
            has_driver_task in
        ground (
          arith,
          subst (λ x. (is_finished start_child_driver s || has start_child_driver x) ≡ true) f
              (invariant.logged child start_child_driver ahead),
        )

    -- Where the child is blocked, the parent, if it has not failed, moves.
    parent_moves :
        (p : List Action) → s.alive parent ≡ true → s.rest parent ≡ p → Blocked s child → CanMove s
    unfolding awaits to_send
    parent_moves [] a e (k, r, f, q) =
        absurd (omega (arith, fed child k r f q, ap (λ x. length (to_send x)) e))
    parent_moves (send k ∷ p) a e b = (_, inl (sends parent k p a e))
    parent_moves (wait l ∷ p) a e (k, r, f, q) =
        elim (wait_move parent l p (s.inbox parent) a e refl) [
          | inl m ↦ m
          | inr (l', p', e', q') ↦ absurd (no_cycle d s l' k p' r invariant e' f q' q)
        ]
    parent_moves (act t ∷ p) a e b = (_, inl (acts parent t p a e refl))
    parent_moves (gain_caps ∷ p) a e b = absurd (no_exec p e)
    parent_moves (await_ports ∷ p) a e (k, r, f, q) =
        absurd (omega (arith, fed child k r f q, late_sends (rw e refl)))
    parent_moves (await_exit ∷ p) a e (k, r, f, q) =
        absurd (omega (arith, fed child k r f q, late_sends (rw e refl)))

    -- Where the child is done, the parent moves until it is done.
    parent_finishes :
        (p : List Action)
        → s.alive parent ≡ true
        → s.alive child ≡ true
        → s.rest parent ≡ p
        → s.rest child ≡ []
        → (s.rest parent ≡ []) ⊎ CanMove s
    unfolding to_send
    parent_finishes [] a c e f = inl e
    parent_finishes (send k ∷ p) a c e f = inr (_, inl (sends parent k p a e))
    parent_finishes (wait l ∷ p) a c e f = elim (wait_move parent l p (s.inbox parent) a e refl) [
      | inl m ↦ inr m
      | inr (l', p', e', q') ↦
          absurd (omega (arith, fed parent l' p' e' q', ap (λ x. length (to_send x)) f))
    ]
    parent_finishes (act t ∷ p) a c e f = inr (_, inl (acts parent t p a e refl))
    parent_finishes (gain_caps ∷ p) a c e f = absurd (no_exec p e)
    parent_finishes (await_ports ∷ p) a c e f =
        inr (_, inl (sees_ports p a e (driver_started p e f)))
    parent_finishes (await_exit ∷ p) a c e f = inr (_, inl (sees_exit p a e c f))

    dead_parent : s.alive child ≡ true → s.alive parent ≡ false → Blocked s child → CanMove s
    dead_parent c a (k, r, f, q) = (_, inr (sees_end k r c f q (invariant.ended a)))

    -- In every reachable state in which neither the child nor its port driver has failed, either the
    -- child is done, and the parent is done or has failed, or a process goes on: a call returns, or
    -- what the other process did is noticed as an error. The kernel is taken to give capabilities to an executed
    -- process just if its ID map is set up.
    pub no_deadlock :
        s.alive child ≡ true
        → is_finished driver_failed s ≡ false
        → ((s.rest child ≡ []) × ((s.rest parent ≡ []) ⊎ (s.alive parent ≡ false))) ⊎ CanMove s
    no_deadlock c fine = elim (child_move fine (s.rest child) c refl) [
      | inr (inl m) ↦ inr m
      | inr (inr b) ↦ elim (Bool-cases (s.alive parent)) [
        | inl a ↦ inr (parent_moves (s.rest parent) a refl b)
        | inr a ↦ inr (dead_parent c a b)
      ]
      | inl e ↦ elim (Bool-cases (s.alive parent)) [
        | inl a ↦ elim (parent_finishes (s.rest parent) a c refl e) [
          | inl p ↦ inl (e, inl p)
          | inr m ↦ inr m
        ]
        | inr a ↦ inl (e, inr a)
      ]
    ]
