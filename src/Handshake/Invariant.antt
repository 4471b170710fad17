-- ===== src/Handshake/Invariant.antt =====
-- What every reachable state of the handshake has.
use rootlesskit.Base.{
  length, drop, ℕ, suc, ◌≤◌, ◌≡◌, refl, sym, ap, ◌∙◌, subst, Bool, true, false, ◌||◌, List, ◌∷◌,
  arith,
}
use rootlesskit.Handshake.{
  Task, Action, send, wait, act, gain_caps, await_ports, await_exit, child_script, parent_script,
  capable_script, when, set_up_id_map, driver_failed,
}
use rootlesskit.Handshake.System.{
  Side, parent, child, set, task_id, System, is_finished, finish, fail, start, Step, sends,
  receives, acts, executes, sees_ports, sees_exit, call_fails, driver_fails, refuses, sees_end,
  sees_failure, Reach, started, stepped, broken, noticed,
}
use rootlesskit.Handshake.Queues.{
  to_receive, Balanced, Balanced-le, start-Balanced, Step-Balanced, to_send,
}
use rootlesskit.Handshake.Points.{drop-next, has, script, is_act}
use rootlesskit.Handshake.Scripts.{id_map-before, after_exec}

-- The kernel gives capabilities to a process that is executed just if the ID map is set up.
pub record Grants (kernel : Bool → Bool) : Type 0 where
  pub before : kernel false ≡ false
  pub after : kernel true ≡ true

pub record Inv (d : Bool) (s : System) : Type 0 where
  pub at : (i : Side) → (n : ℕ) × (s.rest i ≡ drop n (script d i))
  pub balanced : Balanced s
  -- A task of a script is done or still ahead.
  pub logged :
      (i : Side) (t : Task)
      → has t (script d i) ≡ true
      → (is_finished t s || has t (s.rest i)) ≡ true
  -- A failed parent holds no pipe.
  pub ended : s.alive parent ≡ false → s.closed ≡ true

-- A process that goes on to the next action of its script.
next-at :
    (d : Bool) (s : System) (i : Side) (a : Action) (r : List Action)
    → Inv d s
    → s.rest i ≡ a ∷ r
    → (j : Side) → (n : ℕ) × (set i r s.rest j ≡ drop n (script d j))
next-at d s parent a r v e parent =
    let (n, here) = v.at parent in (suc n, sym (drop-next n (script d parent) r a (sym here ∙ e)))
next-at d s parent a r v e child = v.at child
next-at d s child a r v e parent = v.at parent
next-at d s child a r v e child =
    let (n, here) = v.at child in (suc n, sym (drop-next n (script d child) r a (sym here ∙ e)))

-- An action that is no task leaves the tasks ahead as they were.
skip-logged :
    (d : Bool) (s : System) (i : Side) (r : List Action)
    → Inv d s
    → ((t : Task) → has t (s.rest i) ≡ has t r)
    → (j : Side) (t : Task) → has t (script d j) ≡ true
    → (is_finished t s || has t (set i r s.rest j)) ≡ true
skip-logged d s parent r v same parent t h = rw (← same t) (v.logged parent t h)
skip-logged d s parent r v same child t h = v.logged child t h
skip-logged d s child r v same parent t h = v.logged parent t h
skip-logged d s child r v same child t h = rw (← same t) (v.logged child t h)

act-logged :
    (d : Bool) (s : System) (i : Side) (u : Task) (r : List Action)
    → Inv d s
    → s.rest i ≡ act u ∷ r
    → (j : Side) (t : Task) → has t (script d j) ≡ true
    → (is_finished t (finish i u r s) || has t (set i r s.rest j)) ≡ true
unfolding has is_act
act-logged d s parent u r v e parent t h =
    ground (arith, subst (λ x. (is_finished t s || has t x) ≡ true) e (v.logged parent t h))
act-logged d s parent u r v e child t h = ground (arith, v.logged child t h)
act-logged d s child u r v e parent t h = ground (arith, v.logged parent t h)
act-logged d s child u r v e child t h =
    ground (arith, subst (λ x. (is_finished t s || has t x) ≡ true) e (v.logged child t h))

two_left : (d : Bool) → length (to_receive (gain_caps ∷ capable_script d)) ≡ 2
unfolding to_receive capable_script when
two_left true = refl
two_left false = refl

has_id_map : (d : Bool) → has set_up_id_map (parent_script d) ≡ true
unfolding has is_act parent_script task_id when
has_id_map true = refl
has_id_map false = refl

-- The ID map is set up once at most two messages are left to send.
pub id_map_done :
    (d : Bool) (s : System)
    → Inv d s
    → length (to_send (s.rest parent)) ≤ 2
    → is_finished set_up_id_map s ≡ true
id_map_done d s v few =
    let (n, here) = v.at parent in
    let gone : has set_up_id_map (s.rest parent) ≡ false =
      rw here (id_map-before d n (subst (λ p. length (to_send p) ≤ 2) here few)) in
    ground (arith, v.logged parent set_up_id_map (has_id_map d), gone)

-- The child executes itself again after the ID map has been set up.
id_map-finished :
    (d : Bool) (s : System) (r : List Action)
    → Inv d s
    → s.rest child ≡ gain_caps ∷ r
    → is_finished set_up_id_map s ≡ true
id_map-finished d s r v e =
    let (m, there) = v.at child in
    let two : length (to_receive (s.rest child)) ≡ 2 =
      rw (e, ← after_exec d m r (sym there ∙ e)) (two_left d) in
    id_map_done d s v (omega (arith, Balanced-le s child v.balanced, two))

module _ (d : Bool) (kernel : Bool → Bool) (g : Grants kernel) where
  pub goes_on :
      (s : System)
      → Inv d s
      → (r : List Action) → s.rest child ≡ gain_caps ∷ r
      → child_script d (kernel (is_finished set_up_id_map s)) ≡ r
  unfolding child_script
  goes_on s v r e =
      let (n, here) = v.at child in
      rw (id_map-finished d s r v e, g.after) (after_exec d n r (sym here ∙ e))

  start-Inv : Inv d (start d kernel)
  unfolding start
  start-Inv = record {
    at = elim [ parent ↦ (0, refl) | child ↦ (0, ap (child_script d) g.before) ];
    balanced = start-Balanced d kernel g.before;
    logged = elim [
      | parent ↦ (λ t h. h)
      | child ↦ (λ t h. subst (λ b. has t (child_script d b) ≡ true) (sym g.before) h)
    ];
    ended = λ h. absurd (ground arith);
  }

  Step-at :
      (s t : System)
      → Inv d s
      → Step d kernel s t
      → (i : Side) → (n : ℕ) × (t.rest i ≡ drop n (script d i))
  Step-at s t v (sends i k r a e) = next-at d s i (send k) r v e
  Step-at s t v (receives i k r q a e f) = next-at d s i (wait k) r v e
  Step-at s t v (acts i u r a e x) = next-at d s i (act u) r v e
  Step-at s t v (executes r a e) = rw (goes_on s v r e) (next-at d s child gain_caps r v e)
  Step-at s t v (sees_ports r a e f) = next-at d s parent await_ports r v e
  Step-at s t v (sees_exit r a e f h) = next-at d s parent await_exit r v e

  Step-logged :
      (s t : System)
      → Inv d s
      → Step d kernel s t
      → (i : Side) (u : Task) → has u (script d i) ≡ true
      → (is_finished u t || has u (t.rest i)) ≡ true
  unfolding has is_act
  Step-logged s t v (sends i k r a e) = skip-logged d s i r v (λ u. rw e)
  Step-logged s t v (receives i k r q a e f) = skip-logged d s i r v (λ u. rw e)
  Step-logged s t v (acts i u r a e x) = act-logged d s i u r v e
  Step-logged s t v (executes r a e) = rw (goes_on s v r e) (skip-logged d s child r v (λ u. rw e))
  Step-logged s t v (sees_ports r a e f) = skip-logged d s parent r v (λ u. rw e)
  Step-logged s t v (sees_exit r a e f h) = skip-logged d s parent r v (λ u. rw e)

  Step-ended :
      (s t : System) → Inv d s → Step d kernel s t → t.alive parent ≡ false → t.closed ≡ true
  Step-ended s t v (sends i k r a e) h = v.ended h
  Step-ended s t v (receives i k r q a e f) h = v.ended h
  Step-ended s t v (acts i u r a e x) h = ground (arith, v.ended h)
  Step-ended s t v (executes r a e) h = v.ended h
  Step-ended s t v (sees_ports r a e f) h = v.ended h
  Step-ended s t v (sees_exit r a e f g) h = v.ended h

  Step-Inv : (s t : System) → Inv d s → Step d kernel s t → Inv d t
  Step-Inv s t v m = record {
    at = Step-at s t v m;
    balanced = Step-Balanced d kernel s t v.balanced (goes_on s v) m;
    logged = Step-logged s t v m;
    ended = Step-ended s t v m;
  }

  fail-ended :
      (s : System) (i : Side) → Inv d s → (fail i s).alive parent ≡ false → (fail i s).closed ≡ true
  fail-ended s parent v h = ground arith
  fail-ended s child v h = ground (arith, v.ended h)

  fail-Inv : (s : System) (i : Side) → Inv d s → Inv d (fail i s)
  fail-Inv s i v = record {
    at = v.at;
    balanced = v.balanced;
    logged = v.logged;
    ended = fail-ended s i v;
  }

  driver-Inv : (s : System) → Inv d s → Inv d (record s { finished = driver_failed ∷ s.finished })
  driver-Inv s v = record {
    at = v.at;
    balanced = v.balanced;
    logged = λ i t h. ground (arith, v.logged i t h);
    ended = v.ended;
  }

  pub Reach-Inv : {n : ℕ} {s : System} → Reach d kernel n s → Inv d s
  Reach-Inv started = start-Inv
  Reach-Inv (stepped {n} {s} {t} h m) = Step-Inv s t (Reach-Inv h) m
  Reach-Inv (broken {n} {s} {t} h (call_fails i a r l e x)) = fail-Inv s i (Reach-Inv h)
  Reach-Inv (broken {n} {s} {t} h (driver_fails a b c)) = driver-Inv s (Reach-Inv h)
  Reach-Inv (noticed {n} {s} {t} h (refuses i k l r q a e f x)) = fail-Inv s i (Reach-Inv h)
  Reach-Inv (noticed {n} {s} {t} h (sees_end k r a e f x)) = fail-Inv s child (Reach-Inv h)
  Reach-Inv (noticed {n} {s} {t} h (sees_failure r a e f)) = fail-Inv s parent (Reach-Inv h)
