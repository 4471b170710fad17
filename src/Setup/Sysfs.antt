-- ===== src/Setup/Sysfs.antt =====
-- mountSysfs, mountProcfs and setMountPropagation of pkg/child/child.go.
pub mod Cgroups
use rootlesskit.Base.{if◌then◌else◌, Bool, true, false, not, Option, none, some, List, [], ◌∷◌}
use rootlesskit.Text.{Bytes, codes, str_eq, str_eq_refl}
use rootlesskit.Calls.{
  Kernel, Act, ◌>>=◌, ◌>>◌, call, attempt, pure, when, done, deferring, act-bind, call-bind,
}
use rootlesskit.Setup.{
  Call, Flag, mount, mkdir_temp, remove_all, bind, rec, move, rdonly, private, shared, slave,
}

abbrev pub cgroup_dir : Bytes
cgroup_dir = codes "/sys/fs/cgroup"

pub data Error : Type 0 where
  tmpfs_failed cgroup2_failed mkdir_failed bind_failed propagation_failed : Bytes → Error
  move_failed : Bytes → Bytes → Error

module _ (kernel : Kernel Call) where
  mount_cgroup2 : Act Call Error (Unit {0})
  mount_cgroup2 =
      done (call kernel cgroup2_failed (mount (codes "none") cgroup_dir (codes "cgroup2") []))

  host_sysfs : Bool → Act Call Error (Unit {0})
  unfolding mount_cgroup2
  host_sysfs evacuate = when evacuate (
      call kernel tmpfs_failed (mount (codes "none") cgroup_dir (codes "tmpfs") [])
      >> mount_cgroup2)

  -- `unix.Mount` with the fallback to a mount that is only read; the errors are logged.
  mount_or_rdonly : Bytes → Bytes → Act Call Error (Unit {0})
  mount_or_rdonly target fstype = do
    mounted ← attempt kernel (mount (codes "none") target fstype [])
    when (not mounted) (done (attempt kernel (mount (codes "none") target fstype (rdonly ∷ []))))

  take_cgroup : Bytes → Bool → Act Call Error (Unit {0})
  unfolding mount_cgroup2
  take_cgroup tmp evacuate =
      if evacuate
      then mount_cgroup2
      else done (call kernel (move_failed tmp) (mount tmp cgroup_dir [] (move ∷ [])))

  keep_cgroup : Bytes → Bool → Act Call Error (Unit {0})
  keep_cgroup tmp evacuate =
      when (not evacuate)
        (done (call kernel bind_failed (mount cgroup_dir tmp [] (bind ∷ rec ∷ []))))

  own_sysfs : Bytes → Bool → Act Call Error (Unit {0})
  unfolding keep_cgroup mount_or_rdonly take_cgroup
  own_sysfs tmp evacuate = do
    keep_cgroup tmp evacuate
    mount_or_rdonly (codes "/sys") (codes "sysfs")
    take_cgroup tmp evacuate

  -- `mountSysfs(hostNetwork, evacuateCgroup2)`.
  unfoldable pub mount_sysfs : Bool → Bool → Act Call Error (Unit {0})
  unfolding host_sysfs own_sysfs
  mount_sysfs true evacuate = host_sysfs evacuate
  mount_sysfs false evacuate = do
    tmp ← call kernel mkdir_failed (mkdir_temp (codes "/tmp") (codes "rksys"))
    deferring (remove_all tmp) (own_sysfs tmp evacuate)

  unfoldable pub mount_procfs : Act Call Error (Unit {0})
  unfolding mount_or_rdonly
  mount_procfs = mount_or_rdonly (codes "/proc") (codes "proc")

-- `propagationStates`.
propagation_flags : Bytes → Option (List Flag)
propagation_flags p =
    if str_eq p (codes "private")
    then some (private ∷ [])
    else if str_eq p (codes "rprivate")
    then some (rec ∷ private ∷ [])
    else if str_eq p (codes "shared")
    then some (shared ∷ [])
    else if str_eq p (codes "rshared")
    then some (rec ∷ shared ∷ [])
    else if str_eq p (codes "slave")
    then some (slave ∷ [])
    else if str_eq p (codes "rslave")
    then some (rec ∷ slave ∷ [])
    else none

module _ (kernel : Kernel Call) where
  with_flags : Option (List Flag) → Act Call Error (Unit {0})
  with_flags none = pure tt
  with_flags (some flags) =
      done (call kernel propagation_failed (mount (codes "none") (codes "/") [] flags))

  unfoldable pub set_mount_propagation : Bytes → Act Call Error (Unit {0})
  unfolding with_flags propagation_flags
  set_mount_propagation propagation = with_flags (propagation_flags propagation)
