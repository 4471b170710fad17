-- ===== src/Cgroup.antt =====
-- pkg/parent/cgrouputil/cgrouputil.go: the evacuation of a cgroup. What is mounted is a parameter.
pub mod Evacuated
pub mod Examples
use rootlesskit.Base.{if◌then◌else◌, ℤ, ◌||◌, List, [], ◌∷◌, ◌++◌, map, Result, ok, err, is_ok}
use rootlesskit.Text.{Bytes, codes, str_eq, is_empty}
use rootlesskit.Text.Search.{split, has_prefix, trim_prefix, contains, fields}
use rootlesskit.Text.Decimal.{itoa}
use rootlesskit.Calls.{Kernel, Act, ◌>>=◌, ◌>>◌, call, attempt, pure, fail_if, done}

pub data Call : Type 0 where
  get_mounts : Call
  read_file mkdir_all : Bytes → Call
  write_file : Bytes → Bytes → Call

pub data Error : Type 0 where
  empty_name bad_name : Error
  mkdir_failed read_failed : Bytes → Error

-- The mount points of type cgroup2 that `mountinfo.GetMounts` finds, `filepath.Join`, and the
-- process's own ID.
pub record System : Type 0 where
  pub kernel : Kernel Call
  pub mounts : List Call → List Bytes
  pub join : Bytes → Bytes → Bytes
  pub pid : ℤ

-- The loop of `getCgroup2FromProcPidCgroup` over the lines.
unfoldable pub group_line : List Bytes → Bytes
unfolding has_prefix trim_prefix
group_line [] = []
group_line (line ∷ lines) =
    let rest = group_line lines in
    if has_prefix line (codes "0::") then trim_prefix line (codes "0::") else rest

unfoldable pub group_of : Bytes → Bytes
unfolding group_line split
group_of text = group_line (split text 10)

first_mount : List Bytes → Bytes
first_mount [] = []
first_mount (m ∷ ms) = m

-- The lines of cgroup.procs that name a process to be moved.
unfoldable pub pids : List Bytes → List Bytes
unfolding str_eq
pids [] = []
pids (line ∷ lines) =
    let rest = pids lines in if is_empty line || str_eq line (codes "0") then rest else line ∷ rest

module _ (sys : System) where
  -- `findCgroup2Mountpoint`.
  unfoldable pub find_mountpoint : Act Call Error Bytes
  unfolding first_mount
  find_mountpoint log = (
    ok (if is_ok (sys.kernel log get_mounts) then first_mount (sys.mounts log) else []),
    get_mounts ∷ log,
  )

  unfoldable pub group_text : Result Bytes Bytes → Bytes
  unfolding group_of
  group_text (ok text) = group_of text
  group_text (err e) = []

  -- `getCgroup2(os.Getpid())`.
  unfoldable pub get_cgroup2 : Act Call Error Bytes
  unfolding group_text
  get_cgroup2 log =
      let c = read_file (codes "/proc/" ++ itoa sys.pid ++ codes "/cgroup") in
      (ok (group_text (sys.kernel log c)), c ∷ log)

  -- Writes whose errors are logged.
  unfoldable pub write_each : Bytes → List Bytes → Act Call Error (Unit {0})
  write_each path [] = pure tt
  write_each path (text ∷ texts) =
      attempt sys.kernel (write_file path text) >> write_each path texts

  unfoldable pub move_all : Bytes → Bytes → Act Call Error (Unit {0})
  unfolding write_each pids split fields
  move_all old_path new_path = do
    call sys.kernel mkdir_failed (mkdir_all new_path)
    procs ← call sys.kernel read_failed (read_file (sys.join old_path (codes "cgroup.procs")))
    write_each (sys.join new_path (codes "cgroup.procs")) (pids (split procs 10))
    controllers ←
        call sys.kernel read_failed (read_file (sys.join old_path (codes "cgroup.controllers")))
    write_each (sys.join old_path (codes "cgroup.subtree_control"))
        (map (λ c. b'+' ∷ c) (fields controllers))

  -- What follows on the lookup of the old group; the mount point is tested once more.
  unfoldable pub evacuate_from : Bytes → Bytes → Bytes → Act Call Error (Unit {0})
  unfolding move_all
  evacuate_from evac mountpoint old_group =
      if is_empty mountpoint
      then pure tt
      else move_all (sys.join mountpoint old_group) (sys.join mountpoint (sys.join old_group evac))

  unfoldable pub evacuate_at : Bytes → Bytes → Act Call Error (Unit {0})
  unfolding evacuate_from get_cgroup2
  evacuate_at evac mountpoint =
      if is_empty mountpoint then pure tt else get_cgroup2 >>= evacuate_from evac mountpoint

  -- `EvacuateCgroup2`.
  unfoldable pub evacuate_cgroup2 : Bytes → Act Call Error (Unit {0})
  unfolding evacuate_at find_mountpoint
  evacuate_cgroup2 evac = do
    fail_if (is_empty evac) empty_name
    fail_if (contains evac b'/') bad_name
    mountpoint ← find_mountpoint
    evacuate_at evac mountpoint
