-- ===== src/Handshake/System.antt =====
-- The two processes of the handshake and the pipes between them, as a step relation.
use rootlesskit.Base.{
  any, ◌==◌, ℕ, suc, ◌≡◌, ◌≢◌, Bool, true, false, not, ◌&&◌, ◌||◌, List, [], ◌∷◌, ◌++◌,
}
use rootlesskit.Handshake.{
  Kind, Task, Action, send, wait, act, gain_caps, await_ports, await_exit, parent_script,
  child_script, set_up_id_map, close_pipe, start_child_driver, forward_signals, evacuate_cgroup2,
  configure_network, start_parent_driver, publish_ports, write_child_pid, serve_api, close_api,
  stop_parent_driver, mount_procfs, create_netns, close_reader, set_propagation, copy_up,
  mount_sysfs, set_up_net, create_cmd, run_target, stop_child_driver, driver_failed,
}

pub data Side : Type 0 where
  parent child : Side

abbrev pub other : Side → Side
other parent = child
other child = parent

abbrev pub is_parent : Side → Bool
is_parent parent = true
is_parent child = false

abbrev pub set {ℓ} : {A : Type ℓ} → Side → A → (Side → A) → Side → A
set parent a f parent = a
set parent a f child = f child
set child a f parent = f parent
set child a f child = a

-- What each process has still to do, whether it has not failed, the pipe that it reads, the tasks
-- that are done, and whether the parent-to-child pipe has lost its writer. The parent holds the
-- writing end of the other pipe itself, so that one never ends.
pub record System : Type 0 where
  pub rest : Side → List Action
  pub alive : Side → Bool
  pub inbox : Side → List Kind
  pub finished : List Task
  pub closed : Bool

unfoldable pub task_id : Task → ℕ
task_id set_up_id_map = 0
task_id forward_signals = 1
task_id evacuate_cgroup2 = 2
task_id configure_network = 3
task_id start_parent_driver = 4
task_id close_pipe = 5
task_id publish_ports = 6
task_id write_child_pid = 7
task_id serve_api = 8
task_id close_api = 9
task_id stop_parent_driver = 10
task_id mount_procfs = 11
task_id create_netns = 12
task_id close_reader = 13
task_id set_propagation = 14
task_id copy_up = 15
task_id mount_sysfs = 16
task_id set_up_net = 17
task_id start_child_driver = 18
task_id create_cmd = 19
task_id run_target = 20
task_id stop_child_driver = 21
task_id driver_failed = 22

abbrev pub same_task : Task → Task → Bool
same_task t u = task_id t == task_id u

abbrev pub is_finished : Task → System → Bool
is_finished t s = any (same_task t) s.finished

abbrev pub finish : Side → Task → List Action → System → System
finish i t r s = record s {
  rest = set i r s.rest;
  finished = t ∷ s.finished;
  closed = s.closed || same_task t close_pipe;
}

-- A process that returns an error; with the parent goes its end of the pipe. The signal that the
-- child asks for at the death of the parent is left out: newuidmap clears it.
abbrev pub fail : Side → System → System
fail i s = record s { alive = set i false s.alive; closed = s.closed || is_parent i }

-- The child sends to portQuitCh, which nobody receives from once the port driver has failed.
abbrev pub blocks : Side → Task → System → Bool
blocks parent t s = false
blocks child t s = same_task t stop_child_driver && is_finished driver_failed s

-- Whether a call of a process can return an error.
abbrev pub can_fail : Side → Action → System → Bool
can_fail i (act t) s =
    not (any (same_task t) (start_parent_driver ∷ start_child_driver ∷ [])) && not (blocks i t s)
can_fail i a s = true

-- `cmd.Start`: the child runs as far as `hasCaps`.
unfoldable pub start : Bool → (Bool → Bool) → System
start has_driver kernel = record {
  rest = set parent (parent_script has_driver) (λ i. child_script has_driver (kernel false));
  alive = λ i. true;
  inbox = λ i. [];
  finished = [];
  closed = false;
}

-- `kernel` tells whether a process that is executed has capabilities, by whether the ID map of
-- its user namespace is set up.
module _ (has_driver : Bool) (kernel : Bool → Bool) where
  -- One call that returns without an error. The port driver of the parent is taken to be ready
  -- once the child's has been started, as the builtin one is.
  pub data Step (s : System) : System → Type 0 where
    sends :
        (i : Side) (k : Kind) (r : List Action)
        → s.alive i ≡ true
        → s.rest i ≡ send k ∷ r
        → Step s (record s {
          rest = set i r s.rest;
          inbox = set (other i) (s.inbox (other i) ++ k ∷ []) s.inbox;
        })
    receives :
        (i : Side) (k : Kind) (r : List Action) (q : List Kind)
        → s.alive i ≡ true
        → s.rest i ≡ wait k ∷ r
        → s.inbox i ≡ k ∷ q
        → Step s (record s { rest = set i r s.rest; inbox = set i q s.inbox })
    acts :
        (i : Side) (t : Task) (r : List Action)
        → s.alive i ≡ true
        → s.rest i ≡ act t ∷ r
        → blocks i t s ≡ false
        → Step s (finish i t r s)
    executes :
        (r : List Action)
        → s.alive child ≡ true
        → s.rest child ≡ gain_caps ∷ r
        → Step s (record s {
          rest = set child (child_script has_driver (kernel (is_finished set_up_id_map s))) s.rest;
        })
    sees_ports :
        (r : List Action)
        → s.alive parent ≡ true
        → s.rest parent ≡ await_ports ∷ r
        → is_finished start_child_driver s ≡ true
        → Step s (record s { rest = set parent r s.rest })
    sees_exit :
        (r : List Action)
        → s.alive parent ≡ true
        → s.rest parent ≡ await_exit ∷ r
        → s.alive child ≡ true
        → s.rest child ≡ []
        → Step s (record s { rest = set parent r s.rest })

  -- A call, or the child's port driver, fails for a reason of its own.
  pub data Break (s : System) : System → Type 0 where
    call_fails :
        (i : Side) (a : Action) (r : List Action)
        → s.alive i ≡ true
        → s.rest i ≡ a ∷ r
        → can_fail i a s ≡ true
        → Break s (fail i s)
    -- The child's port driver fails while it runs; the error waits in portErrCh.
    driver_fails :
        s.alive child ≡ true
        → is_finished start_child_driver s ≡ true
        → is_finished stop_child_driver s ≡ false
        → Break s (record s { finished = driver_failed ∷ s.finished })

  -- An error that comes of what the other process did: a message that is not waited for, a pipe
  -- that has ended, or the failure of the child.
  pub data Notice (s : System) : System → Type 0 where
    refuses :
        (i : Side) (k l : Kind) (r : List Action) (q : List Kind)
        → s.alive i ≡ true
        → s.rest i ≡ wait k ∷ r
        → s.inbox i ≡ l ∷ q
        → l ≢ k
        → Notice s (fail i s)
    sees_end :
        (k : Kind) (r : List Action)
        → s.alive child ≡ true
        → s.rest child ≡ wait k ∷ r
        → s.inbox child ≡ []
        → s.closed ≡ true
        → Notice s (fail child s)
    sees_failure :
        (r : List Action)
        → s.alive parent ≡ true
        → s.rest parent ≡ await_exit ∷ r
        → s.alive child ≡ false
        → Notice s (fail parent s)

  -- The states after `n` steps.
  pub data Reach : ℕ → System → Type 0 where
    started : Reach 0 (start has_driver kernel)
    stepped : {n : ℕ} {s t : System} → Reach n s → Step s t → Reach (suc n) t
    broken : {n : ℕ} {s t : System} → Reach n s → Break s t → Reach (suc n) t
    noticed : {n : ℕ} {s t : System} → Reach n s → Notice s t → Reach (suc n) t
