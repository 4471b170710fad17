-- ===== src/Setup/Examples.antt =====
-- A child that sets up its network, a /sys whose cgroups cannot be moved back, a target command with
-- sockets, and a target command that is reaped.
use rootlesskit.Base.{
  if◌then◌else◌, pos, ◌≡◌, refl, inl, inr, true, false, Option, none, some, List, [], ◌∷◌, ◌++◌,
  arith, Result, ok, err,
}
use rootlesskit.Text.{Bytes, codes, str_eq, is_empty}
use rootlesskit.Messages.{InitNetwork}
use rootlesskit.Calls.{Keeps}
use rootlesskit.Spawn.{Environ}
use rootlesskit.Setup.{Call, exec, Flag, mount, mkdir_temp, remove_all, read_file, hostname, move}
use rootlesskit.Setup.Sysfs.{mount_sysfs}
use rootlesskit.Setup.Sysfs.Cgroups.{Placed, mount_sysfs-Placed}
use rootlesskit.Setup.Net.{System, Driver, set_up_net, generate_etc_hosts, generate_resolv_conf}
use rootlesskit.Setup.Confined.{current, Outside, IsConfined, set_up_net-IsConfined}
use rootlesskit.Setup.Attached.{Both, set_up_net-files}
use rootlesskit.Setup.Command.{Opt, Cmd, create_cmd, check_activation_helper, activation_helper}
use rootlesskit.Setup.Command.Target.{IsTarget, create_cmd-IsTarget}
use rootlesskit.Setup.Reaper.{
  exited, signaled, Error, Waited, process, nothing, child_end, parent_end, main_end, run_and_reap,
}
use rootlesskit.Setup.Reaper.ExitCode.{command_result, shown, exit_code}

abbrev answers : List Call → Call → Result Bytes Bytes
answers log (read_file path) = ok (codes "127.0.0.1 localhost")
answers log hostname = ok (codes "box")
answers log c = ok []

abbrev machine : System
machine = record { kernel = answers; join = λ a b. a ++ b'/' ∷ b }

abbrev state_dir : Bytes
state_dir = codes "/run/rk"

abbrev netns : Bytes
netns = codes "/run/rk/netns"

abbrev msg : InitNetwork (Unit {0})
msg = record {
  network = none;
  dev = codes "tap0";
  ip = codes "10.0.2.100";
  netmask = pos 24;
  gateway = codes "10.0.2.2";
  dns = codes "10.0.2.3" ∷ codes "fd00::3" ∷ [];
  mtu = pos 65520;
  opaque = [];
}

-- A driver that runs one command, as that of lxc-user-nic does.
abbrev link_up : Bytes → Call
link_up ns = exec (
    codes "nsenter"
    ∷ (codes "-n" ++ (if is_empty ns then codes "/proc/self/ns/net" else ns))
    ∷ codes "ip"
    ∷ codes "link"
    ∷ codes "set"
    ∷ codes "tap0"
    ∷ codes "up"
    ∷ [])

abbrev tap : Driver (Unit {0})
tap = record {
  configure = λ m ns log. (ok (m.dev, m), link_up ns ∷ log);
  configures_interface = false;
}

tap-Outside : Keeps (Outside machine state_dir netns) (tap.configure msg netns)
unfolding current
tap-Outside log h = ((inr (_, refl), h.0), h.1)

abbrev after_net : Bytes → List Call
after_net ns = (set_up_net machine state_dir msg true (some tap) ns []).1

set_up_net-IsConfined_example :
    IsConfined machine state_dir netns (after_net netns)
    × (current answers (after_net netns) ≡ none)
unfolding current
set_up_net-IsConfined_example =
    set_up_net-IsConfined machine state_dir netns msg true tap [] refl tap-Outside tt refl

set_up_net-files_example :
    (start : List Call) × (hosts : Bytes) × (dev : Bytes) × (msg' : InitNetwork (Unit {0}))
    × ((generate_etc_hosts machine []).0 ≡ ok hosts)
    × ((tap.configure msg [] start).0 ≡ ok (dev, msg'))
    × Both machine state_dir (generate_resolv_conf msg'.dns) hosts (after_net [])
unfolding str_eq set_up_net rootlesskit.Setup.Net.run_all rootlesskit.Setup.Files.content
set_up_net-files_example =
    set_up_net-files machine state_dir msg true tap [] (after_net []) {a = tt}
      (refl, ((refl, refl), ((refl, refl), tt))) (λ text log h. h) refl

-- Everything can be mounted, but the cgroups cannot be moved.
abbrev stuck : List Call → Call → Result Bytes Bytes
stuck log (mount source target fstype (move ∷ flags)) = err (codes "EINVAL")
stuck log (mkdir_temp parent pattern) = ok (codes "/tmp/rksys1")
stuck log c = ok []

mount_sysfs-Placed_example :
    (before : List Call) × ((mount_sysfs stuck false false []).1
      ≡ remove_all (codes "/tmp/rksys1") ∷ before)
    × Placed stuck (codes "/tmp/rksys1") false ((mount_sysfs stuck false false []).0, before)
unfolding str_eq rootlesskit.Setup.mounted_on
mount_sysfs-Placed_example =
    mount_sysfs-Placed stuck false [] (codes "/tmp/rksys1") refl refl refl refl

abbrev opt : Opt
opt = record {
  run_activation_helper_env_key = codes "_HELPER";
  child_use_activation_env_key = codes "_ACTIVATION";
  target_cmd = codes "nginx" ∷ codes "-g" ∷ [];
}

abbrev env : Environ
env =
    (codes "LISTEN_PID", codes "12")
    ∷ (codes "LISTEN_FDS", codes "1")
    ∷ (codes "_ACTIVATION", codes "true")
    ∷ []

abbrev argv : List Bytes
argv = codes "--net=host" ∷ codes "nginx" ∷ codes "-g" ∷ []

abbrev look_path : Bytes → Option Bytes
look_path name = some (codes "/usr/bin/nginx")

create_cmd-IsTarget_example :
    (helper target : Cmd) × (create_cmd opt argv env ≡ ok helper)
    × (helper.path ≡ codes "/proc/self/exe")
    × (helper.args ≡ argv)
    × (check_activation_helper opt helper.env ≡ ok true)
    × (activation_helper look_path opt (pos 40) helper.env ≡ ok target)
    × IsTarget opt (pos 40) env (codes "/usr/bin/nginx") (codes "-g" ∷ []) target
unfolding rootlesskit.Setup.Command.fixes_listen_pid rootlesskit.Setup.Command.parse_bool str_eq
    rootlesskit.Spawn.getenv rootlesskit.Spawn.find_env
create_cmd-IsTarget_example =
    create_cmd-IsTarget look_path opt argv (pos 40) env (codes "nginx") (codes "/usr/bin/nginx")
      (codes "-g" ∷ []) refl refl refl refl refl

-- Process 9 is the command; 4 and 5 are others.
abbrev signals : List (List Waited)
signals =
    (process 4 (exited 1) ∷ nothing ∷ [])
    ∷ (process 5 (signaled 9) ∷ process 9 (exited 7) ∷ nothing ∷ [])
    ∷ []

reaped_first : run_and_reap 9 signals ≡ some (some (Error.reaper_error (exited 7)))
unfolding run_and_reap
reaped_first = refl

exit_code_example :
    (r : Option Error) × (command_result true 9 (exited 7) signals ≡ some r)
    × (main_end (child_end r none) ≡ exited (shown (exited 7)))
    × (main_end (parent_end (main_end (child_end r none)) none none) ≡ exited (shown (exited 7)))
exit_code_example =
    exit_code true 9 (exited 7) signals (omega arith)
      (inr ((omega arith, tt), inl (inr (omega arith, inl (refl, refl, tt)))))
