-- ===== src/Handshake/Safety.antt =====
-- The order that the messages of the handshake enforce.
use rootlesskit.Base.{length, ℕ, ◌≤◌, ◌≡◌, refl, subst, Bool, true, false, List, ◌∷◌, ◌++◌, arith}
use rootlesskit.Handshake.{
  Kind, Task, Action, wait, act, child_script, parent_script, capable_script, set_up_id_map,
  configure_network, create_netns, when,
}
use rootlesskit.Handshake.System.{Side, parent, child, other, System, is_finished, Reach, task_id}
use rootlesskit.Handshake.Queues.{to_send, to_receive, Balanced-le}
use rootlesskit.Handshake.Points.{
  has, is_act, needs_parent, at_need, prepared, at_network, configuring, to_receive_count,
}
use rootlesskit.Handshake.Scripts.{prepared-drop, configuring-drop, network-before, netns-before}
use rootlesskit.Handshake.Invariant.{Grants, Inv, Reach-Inv, id_map_done}

has_network : (d : Bool) → has configure_network (parent_script d) ≡ true
unfolding has is_act parent_script task_id when
has_network true = refl
has_network false = refl

has_netns : (d : Bool) → has create_netns (child_script d false) ≡ true
unfolding has is_act child_script capable_script task_id when
has_netns true = refl
has_netns false = refl

first_sent :
    (l k : Kind) (q w : List Kind) (r : List Action) (p : List Action)
    → p ≡ wait k ∷ r
    → (l ∷ q) ++ w ≡ to_receive p
    → l ≡ k
unfolding to_receive
first_sent l k q w r p e b = ground (arith, subst (λ x. l ∷ q ++ w ≡ to_receive x) e b)

-- A child at such a task has received every message.
need-received :
    (c : List Action) (t : Task) (r : List Action)
    → prepared c ≡ true
    → c ≡ act t ∷ r
    → needs_parent t ≡ true
    → length (to_receive c) ≡ 0
unfolding prepared at_need to_receive_count
need-received c t r h e need = let at : at_need c ≡ true = rw e need in ground (arith, h, at)

network-received :
    (p r : List Action)
    → configuring p ≡ true
    → p ≡ act configure_network ∷ r
    → length (to_receive p) ≡ 0
unfolding configuring at_network task_id to_receive_count
network-received p r h e = let at : at_network p ≡ true = rw e refl in ground (arith, h, at)

network_done :
    (d : Bool) (s : System)
    → Inv d s
    → length (to_send (s.rest parent)) ≤ 1
    → is_finished configure_network s ≡ true
network_done d s v few =
    let (n, here) = v.at parent in
    let gone : has configure_network (s.rest parent) ≡ false =
      rw here (network-before d n (subst (λ p. length (to_send p) ≤ 1) here few)) in
    ground (arith, v.logged parent configure_network (has_network d), gone)

netns_done :
    (d : Bool) (s : System)
    → Inv d s
    → length (to_send (s.rest child)) ≤ 0
    → is_finished create_netns s ≡ true
netns_done d s v few =
    let (n, here) = v.at child in
    let gone : has create_netns (s.rest child) ≡ false =
      rw here (netns-before d n (subst (λ p. length (to_send p) ≤ 0) here few)) in
    ground (arith, v.logged child create_netns (has_netns d), gone)

module _ (d : Bool) (kernel : Bool → Bool) (grants : Grants kernel) (n : ℕ) (s : System)
    (reach : Reach d kernel n s) where
  invariant : Inv d s
  invariant = Reach-Inv d kernel grants reach

  -- In every reachable state, if a process waits for a message and one has arrived, then the
  -- first that has arrived is the one it waits for; the kernel is taken to give capabilities to
  -- an executed process just if its ID map is set up.
  pub message_expected :
      (i : Side) (k l : Kind) (r : List Action) (q : List Kind)
      → s.rest i ≡ wait k ∷ r
      → s.inbox i ≡ l ∷ q
      → l ≡ k
  message_expected i k l r q e f = first_sent l k q (to_send (s.rest (other i))) r (s.rest i) e (
      subst (λ x. x ++ to_send (s.rest (other i)) ≡ to_receive (s.rest i)) f (invariant.balanced i))

  -- In every reachable state in which the child is about to set up its network, to start its port
  -- driver or to run the target command, the parent has set up the ID map and has configured the
  -- network, with the same kernel.
  pub parent_is_ready :
      (t : Task) (r : List Action)
      → needs_parent t ≡ true
      → s.rest child ≡ act t ∷ r
      → (is_finished set_up_id_map s ≡ true) × (is_finished configure_network s ≡ true)
  parent_is_ready t r need e =
      let (m, here) = invariant.at child in
      let none_left : length (to_receive (s.rest child)) ≡ 0 =
        need-received (s.rest child) t r (rw here (prepared-drop d m)) e need in
      let few = Balanced-le s child invariant.balanced in
      (
        id_map_done d s invariant (omega (arith, few, none_left)),
        network_done d s invariant (omega (arith, few, none_left)),
      )

  -- In every reachable state in which the parent is about to configure the network, the child has
  -- created its network namespace, with the same kernel.
  pub namespace_is_ready :
      (r : List Action)
      → s.rest parent ≡ act configure_network ∷ r
      → is_finished create_netns s ≡ true
  namespace_is_ready r e =
      let (m, here) = invariant.at parent in
      let none_left : length (to_receive (s.rest parent)) ≡ 0 =
        network-received (s.rest parent) r (rw here (configuring-drop d m)) e in
      netns_done d s invariant (omega (arith, Balanced-le s parent invariant.balanced, none_left))
