-- ===== src/Handshake/Examples.antt =====
-- A run of the handshake without a port driver, by the steps that it takes.
use rootlesskit.Base.{ℕ, ◌≡◌, refl, ◌≢◌, ◌⊎◌, Bool, true, false, []}
use rootlesskit.Handshake.Failure.{Hangs, parent-Hangs}
use rootlesskit.Handshake.Queues.{to_send}
use rootlesskit.Handshake.Safety.{message_expected, parent_is_ready}
use rootlesskit.Handshake.Progress.{CanMove, no_deadlock}
use rootlesskit.Handshake.{
  child_script, parent_script, capable_script, when, parent_hello, Kind, create_netns,
  configure_network, set_up_id_map, child_hello, mount_procfs, act, idmap_completed,
  userns_completed, network_completed, set_up_net, forward_signals, port_completed,
  evacuate_cgroup2, close_reader, set_propagation, copy_up, mount_sysfs, run_target, create_cmd,
  start_child_driver, start_parent_driver,
}
use rootlesskit.Handshake.System.{
  parent, System, start, Reach, Step, sends, started, stepped, receives, is_finished, broken, acts,
  child, call_fails, executes, task_id, driver_fails,
}
use rootlesskit.Handshake.Invariant.{Grants}

abbrev linux : Bool → Bool
linux mapped = mapped

linux-Grants : Grants linux
linux-Grants = record { before = refl; after = refl }

-- A run, as its last state and how it is reached.
record Run (d : Bool) : Type 0 where
  length_of : ℕ
  last : System
  reach : Reach d linux length_of last

abbrev begin : (d : Bool) → Run d
unfolding start parent_script child_script capable_script when
begin d = record { length_of = _; last = _; reach = started }

abbrev then_step : {d : Bool} (r : Run d) {t : System} → Step d linux r.last t → Run d
then_step r m = record { length_of = _; last = _; reach = stepped r.reach m }

-- The parent has sent its first message.
abbrev greeted : (d : Bool) → Run d
unfolding start parent_script child_script capable_script when task_id begin
greeted d = let r0 = begin d in let r1 = then_step r0 (sends parent parent_hello _ refl refl) in r1

-- The child has been told of the ID map, and has executed itself again.
abbrev capable : (d : Bool) → Run d
unfolding start parent_script child_script capable_script when task_id begin greeted
capable d =
    let r0 = greeted d in
    let r1 = then_step r0 (receives child parent_hello _ _ refl refl refl) in
    let r2 = then_step r1 (sends child child_hello _ refl refl) in
    let r3 = then_step r2 (receives parent child_hello _ _ refl refl refl) in
    let r4 = then_step r3 (acts parent set_up_id_map _ refl refl refl) in
    let r5 = then_step r4 (sends parent idmap_completed _ refl refl) in
    let r6 = then_step r5 (receives child idmap_completed _ _ refl refl refl) in
    let r7 = then_step r6 (executes _ refl refl) in r7

-- The parent is about to configure the network.
abbrev configuring : (d : Bool) → Run d
unfolding start parent_script child_script capable_script when task_id begin greeted capable
configuring d =
    let r0 = capable d in
    let r1 = then_step r0 (acts child mount_procfs _ refl refl refl) in
    let r2 = then_step r1 (acts child create_netns _ refl refl refl) in
    let r3 = then_step r2 (sends child userns_completed _ refl refl) in
    let r4 = then_step r3 (receives parent userns_completed _ _ refl refl refl) in
    let r5 = then_step r4 (acts parent forward_signals _ refl refl refl) in
    let r6 = then_step r5 (acts parent evacuate_cgroup2 _ refl refl refl) in r6

-- The child is about to set up its network.
abbrev settled : Run false
unfolding start parent_script child_script capable_script when task_id begin greeted capable
    configuring
settled =
    let r0 = configuring false in
    let r1 = then_step r0 (acts parent configure_network _ refl refl refl) in
    let r2 = then_step r1 (sends parent network_completed _ refl refl) in
    let r3 = then_step r2 (sends parent port_completed _ refl refl) in
    let r4 = then_step r3 (receives child network_completed _ _ refl refl refl) in
    let r5 = then_step r4 (receives child port_completed _ _ refl refl refl) in
    let r6 = then_step r5 (acts child close_reader _ refl refl refl) in
    let r7 = then_step r6 (acts child set_propagation _ refl refl refl) in
    let r8 = then_step r7 (acts child copy_up _ refl refl refl) in
    let r9 = then_step r8 (acts child mount_sysfs _ refl refl refl) in r9

message_expected_example : ◌≡◌ {A = Kind} parent_hello parent_hello
unfolding start parent_script child_script capable_script when task_id begin greeted
message_expected_example =
    message_expected false linux linux-Grants (greeted false).length_of (greeted false).last
      (greeted false).reach child parent_hello parent_hello _ [] refl refl

parent_is_ready_example :
    (is_finished set_up_id_map settled.last ≡ true)
    × (is_finished configure_network settled.last ≡ true)
unfolding start parent_script child_script capable_script when task_id begin greeted capable
    configuring settled
parent_is_ready_example =
    parent_is_ready false linux linux-Grants settled.length_of settled.last settled.reach set_up_net
      _ refl refl

no_deadlock_example :
    ((settled.last.rest child ≡ [])
      × ((settled.last.rest parent ≡ []) ⊎ (settled.last.alive parent ≡ false)))
    ⊎ CanMove false linux settled.last
unfolding start parent_script child_script capable_script when task_id begin greeted capable
    configuring settled
no_deadlock_example =
    no_deadlock false linux linux-Grants settled.length_of settled.last settled.reach refl refl

-- The child fails to mount procfs: it sends no more, and the parent waits.
abbrev abandoned : Run false
unfolding start parent_script child_script capable_script when task_id begin greeted capable
abandoned = record {
  length_of = _;
  last = _;
  reach = broken (capable false).reach (call_fails child (act mount_procfs) _ refl refl refl);
}

parent-Hangs_example :
    (abandoned.last.rest parent ≢ [])
    × (CanMove false linux abandoned.last
        ⊎ Hangs false linux linux-Grants abandoned.length_of abandoned.last abandoned.reach)
unfolding start parent_script child_script capable_script when task_id begin greeted capable
    abandoned to_send
parent-Hangs_example =
    parent-Hangs false linux linux-Grants abandoned.length_of abandoned.last abandoned.reach
      userns_completed [] refl refl refl

-- With a port driver, up to its start in the child.
abbrev driving : Run true
unfolding start parent_script child_script capable_script when task_id begin greeted capable
    configuring
driving =
    let r0 = configuring true in
    let r1 = then_step r0 (acts parent configure_network _ refl refl refl) in
    let r2 = then_step r1 (sends parent network_completed _ refl refl) in
    let r3 = then_step r2 (acts parent start_parent_driver _ refl refl refl) in
    let r4 = then_step r3 (sends parent port_completed _ refl refl) in
    let r5 = then_step r4 (receives child network_completed _ _ refl refl refl) in
    let r6 = then_step r5 (receives child port_completed _ _ refl refl refl) in
    let r7 = then_step r6 (acts child close_reader _ refl refl refl) in
    let r8 = then_step r7 (acts child set_propagation _ refl refl refl) in
    let r9 = then_step r8 (acts child copy_up _ refl refl refl) in
    let r10 = then_step r9 (acts child mount_sysfs _ refl refl refl) in
    let r11 = then_step r10 (acts child set_up_net _ refl refl refl) in
    let r12 = then_step r11 (acts child start_child_driver _ refl refl refl) in r12

-- The driver fails, and the target command comes to its end.
abbrev after_command : Run true
unfolding start parent_script child_script capable_script when task_id begin greeted capable
    configuring driving
after_command =
    let r0 : Run true = record {
      length_of = _;
      last = _;
      reach = broken driving.reach (driver_fails refl refl refl);
    } in
    let r1 = then_step r0 (acts child create_cmd _ refl refl refl) in
    let r2 = then_step r1 (acts child run_target _ refl refl refl) in r2
