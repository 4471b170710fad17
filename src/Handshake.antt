-- ===== src/Handshake.antt =====
-- The handshake of pkg/parent/parent.go (`Parent`) and pkg/child/child.go (`Child`): the calls of
-- both processes in order, and the pipes between them. What a call does inside is left to the
-- modules on it; here it is done, or it fails. The two `start_…_driver` are `go` statements: they do
-- not fail themselves.
pub mod System
pub mod Queues
pub mod Points
pub mod Scripts
pub mod Invariant
pub mod Safety
pub mod Progress
pub mod Unnoticed
pub mod Failure
pub mod Stuck
pub mod Reexec
pub mod Examples
use rootlesskit.Base.{Bool, true, false, List, [], ◌∷◌, ◌++◌}

-- The names of the messages, in the order of the union `U`.
pub data Kind : Type 0 where
  parent_hello child_hello idmap_completed userns_completed network_completed : Kind
  port_completed : Kind

pub data Task : Type 0 where
  -- The parent's.
  set_up_id_map forward_signals evacuate_cgroup2 configure_network start_parent_driver : Task
  close_pipe publish_ports write_child_pid serve_api close_api stop_parent_driver : Task
  -- The child's.
  mount_procfs create_netns close_reader set_propagation copy_up mount_sysfs set_up_net : Task
  start_child_driver create_cmd run_target stop_child_driver : Task
  -- Not a call of either, but the end of the child's port driver, a goroutine, with an error.
  driver_failed : Task

-- `await_ports` is the select on portDriverInitComplete, `await_exit` is `cmd.Wait`.
pub data Action : Type 0 where
  send wait : Kind → Action
  act : Task → Action
  gain_caps await_ports await_exit : Action

unfoldable pub when : Bool → List Action → List Action
when true xs = xs
when false xs = []

-- `Parent` after `cmd.Start`; the argument says whether there is a port driver.
unfoldable pub parent_script : Bool → List Action
unfolding when
parent_script has_driver =
    send parent_hello
      ∷ wait child_hello
      ∷ act set_up_id_map
      ∷ send idmap_completed
      ∷ wait userns_completed
      ∷ act forward_signals
      ∷ act evacuate_cgroup2
      ∷ act configure_network
      ∷ send network_completed
      ∷ when has_driver (act start_parent_driver ∷ [])
    ++ send port_completed ∷ act close_pipe ∷ when has_driver (await_ports ∷ act publish_ports ∷ [])
    ++ act write_child_pid
      ∷ act serve_api
      ∷ await_exit
      ∷ act close_api
      ∷ when has_driver (act stop_parent_driver ∷ [])

-- `Child` where `hasCaps` answers yes.
unfoldable pub capable_script : Bool → List Action
unfolding when
capable_script has_driver =
    act mount_procfs
      ∷ act create_netns
      ∷ send userns_completed
      ∷ wait network_completed
      ∷ wait port_completed
      ∷ act close_reader
      ∷ act set_propagation
      ∷ act copy_up
      ∷ act mount_sysfs
      ∷ act set_up_net
      ∷ when has_driver (act start_child_driver ∷ [])
    ++ act create_cmd ∷ act run_target ∷ when has_driver (act stop_child_driver ∷ [])

-- `Child`, by the answer of `hasCaps`. The re-execution in `gainCaps` starts it again.
unfoldable pub child_script : Bool → Bool → List Action
unfolding capable_script
child_script has_driver true = capable_script has_driver
child_script has_driver false =
    wait parent_hello
    ∷ send child_hello
    ∷ wait idmap_completed
    ∷ gain_caps
    ∷ capable_script has_driver
