-- ===== src/Handshake/Scripts.antt =====
-- What holds at every point of the two scripts, decided by going through their tails.
use rootlesskit.Base.{
  all, length, drop, ℕ, zero, suc, ◌≤◌, ◌≡◌, refl, subst, Bool, true, false, not, ◌||◌, List, ◌∷◌,
  arith,
}
use rootlesskit.Handshake.{
  Kind, Task, Action, gain_caps, await_ports, child_script, parent_script, capable_script, when,
  set_up_id_map, configure_network, create_netns,
}
use rootlesskit.Handshake.System.{task_id}
use rootlesskit.Handshake.Queues.{to_send, to_receive}
use rootlesskit.Handshake.Points.{
  heard_all, tails, all-tails, is_act, has, is_before, waits, awaits, at_exec, to_send_count,
  to_receive_count, parent_gap, child_gap, late, never_awaits, at_need, prepared, at_network,
  configuring, parent_checks, child_checks,
}

parent_checks-tails : (d : Bool) → all parent_checks (tails (parent_script d)) ≡ true
unfolding tails waits awaits has is_act is_before at_exec parent_gap late at_network configuring
    parent_checks to_send_count to_receive_count to_send to_receive parent_script task_id when
    heard_all
parent_checks-tails true = refl
parent_checks-tails false = refl

child_checks-tails : (d : Bool) → all child_checks (tails (child_script d false)) ≡ true
unfolding tails waits awaits has is_act is_before child_gap never_awaits at_need prepared
    child_checks to_send_count to_receive_count to_send to_receive child_script capable_script
    task_id when
child_checks-tails true = refl
child_checks-tails false = refl

pub parent_checks-drop : (d : Bool) (n : ℕ) → parent_checks (drop n (parent_script d)) ≡ true
parent_checks-drop d = all-tails parent_checks (parent_script d) (parent_checks-tails d)

pub child_checks-drop : (d : Bool) (n : ℕ) → child_checks (drop n (child_script d false)) ≡ true
child_checks-drop d = all-tails child_checks (child_script d false) (child_checks-tails d)

no_exec-tails : (d : Bool) → all (λ c. not (at_exec c)) (tails (capable_script d)) ≡ true
unfolding tails capable_script at_exec when
no_exec-tails true = refl
no_exec-tails false = refl

no_exec : (d : Bool) (n : ℕ) (r : List Action) → ¬ (drop n (capable_script d) ≡ gain_caps ∷ r)
unfolding at_exec
no_exec d n r e =
    let h = all-tails (λ c. not (at_exec c)) (capable_script d) (no_exec-tails d) n in
    absurd (ground (arith, subst (λ x. not (at_exec x) ≡ true) e h))

-- The child gains its capabilities once, and what follows is what it does with them.
pub after_exec :
    (d : Bool) (n : ℕ) (r : List Action)
    → drop n (child_script d false) ≡ gain_caps ∷ r
    → capable_script d ≡ r
unfolding child_script
after_exec d zero r e = absurd (ground arith)
after_exec d (suc zero) r e = absurd (ground arith)
after_exec d (suc (suc zero)) r e = absurd (ground arith)
after_exec d (suc (suc (suc zero))) r e = ground arith
after_exec d (suc (suc (suc (suc n)))) r e = absurd (no_exec d n r e)

pub before-not_has :
    (kinds : List Action → List Kind) (n : ℕ) (t : Task) (p : List Action)
    → is_before kinds n t p ≡ true
    → length (kinds p) ≤ n
    → has t p ≡ false
unfolding is_before
before-not_has kinds n t p h small = ground arith

-- A parent with at most two messages to send has set up the ID map, one with at most one has
-- configured the network; a child with none to send has made its namespaces ready.
pub id_map-before :
    (d : Bool) (n : ℕ)
    → length (to_send (drop n (parent_script d))) ≤ 2
    → has set_up_id_map (drop n (parent_script d)) ≡ false
unfolding parent_checks
id_map-before d n h =
    before-not_has to_send 2 set_up_id_map (drop n (parent_script d))
      (ground (arith, parent_checks-drop d n)) h

pub network-before :
    (d : Bool) (n : ℕ)
    → length (to_send (drop n (parent_script d))) ≤ 1
    → has configure_network (drop n (parent_script d)) ≡ false
unfolding parent_checks
network-before d n h =
    before-not_has to_send 1 configure_network (drop n (parent_script d))
      (ground (arith, parent_checks-drop d n)) h

pub netns-before :
    (d : Bool) (n : ℕ)
    → length (to_send (drop n (child_script d false))) ≤ 0
    → has create_netns (drop n (child_script d false)) ≡ false
unfolding child_checks
netns-before d n h =
    before-not_has to_send 0 create_netns (drop n (child_script d false))
      (ground (arith, child_checks-drop d n)) h

pub prepared-drop : (d : Bool) (n : ℕ) → prepared (drop n (child_script d false)) ≡ true
unfolding child_checks
prepared-drop d n = ground (arith, child_checks-drop d n)

pub configuring-drop : (d : Bool) (n : ℕ) → configuring (drop n (parent_script d)) ≡ true
unfolding parent_checks
configuring-drop d n = ground (arith, parent_checks-drop d n)

-- The parent waits for ports only if there is a driver.
pub at_ports : List Action → Bool
at_ports (await_ports ∷ r) = true
at_ports _ = false

ports-tails : (d : Bool) → all (λ p. not (at_ports p) || d) (tails (parent_script d)) ≡ true
unfolding tails at_ports parent_script when
ports-tails true = refl
ports-tails false = refl

pub ports-driver :
    (d : Bool) (n : ℕ) (r : List Action) → drop n (parent_script d) ≡ await_ports ∷ r → d ≡ true
unfolding at_ports
ports-driver d n r e =
    let h = all-tails (λ p. not (at_ports p) || d) (parent_script d) (ports-tails d) n in
    ground (arith, subst (λ x. (not (at_ports x) || d) ≡ true) e h)

pub never_awaits-drop : (d : Bool) (n : ℕ) → never_awaits (drop n (child_script d false)) ≡ true
unfolding child_checks
never_awaits-drop d n = ground (arith, child_checks-drop d n)

pub child_gap-drop : (d : Bool) (n : ℕ) → child_gap (drop n (child_script d false)) ≡ true
unfolding child_checks
child_gap-drop d n = ground (arith, child_checks-drop d n)

pub parent_gap-drop : (d : Bool) (n : ℕ) → parent_gap (drop n (parent_script d)) ≡ true
unfolding parent_checks
parent_gap-drop d n = ground (arith, parent_checks-drop d n)

pub late-drop : (d : Bool) (n : ℕ) → late (drop n (parent_script d)) ≡ true
unfolding parent_checks
late-drop d n = ground (arith, parent_checks-drop d n)

pub parent-ne-exec : (d : Bool) (n : ℕ) → at_exec (drop n (parent_script d)) ≡ false
unfolding parent_checks
parent-ne-exec d n = ground (arith, parent_checks-drop d n)

pub heard_all-drop : (d : Bool) (n : ℕ) → heard_all (drop n (parent_script d)) ≡ true
unfolding parent_checks
heard_all-drop d n = ground (arith, parent_checks-drop d n)
