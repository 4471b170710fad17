-- ===== src/Setup.antt =====
-- The calls that pkg/child/child.go and pkg/copyup/tmpfssymlink make to set up the namespaces of the
-- child, and what those that succeeded have left.
pub mod Sysfs
pub mod Net
pub mod Files
pub mod Attached
pub mod Resolv
pub mod Confined
pub mod Command
pub mod Reaper
pub mod Examples
use rootlesskit.Base.{
  if◌then◌else◌, Bool, true, false, ◌&&◌, Option, none, some, List, [], ◌∷◌, is_ok,
}
use rootlesskit.Text.{Bytes, str_eq}
use rootlesskit.Calls.{Kernel}

-- The flags of mount(2), without the prefix MS_.
pub data Flag : Type 0 where
  bind rec move rdonly private shared slave : Flag

pub data Call : Type 0 where
  -- Source, target, type and flags.
  mount : Bytes → Bytes → Bytes → List Flag → Call
  -- Directory and prefix; it answers the path of the new directory.
  mkdir_temp : Bytes → Bytes → Call
  remove_all read_dir read_link read_file : Bytes → Call
  -- What the link points to, and its path.
  symlink : Bytes → Bytes → Call
  write_file : Bytes → Bytes → Call
  hostname : Call
  exec : List Bytes → Call
  -- `ns.WithNetNSPath`, around the calls that it makes in the namespace.
  enter_netns leave_netns : Bytes → Call
  -- The entry to `driver.ConfigureNetworkChild`, before the calls that it makes itself.
  configure_network : Bytes → Call

unfoldable pub is_move : List Flag → Bool
is_move [] = false
is_move (move ∷ fs) = true
is_move (f ∷ fs) = is_move fs

-- What is mounted: its source and type. The source of a bind mount is the directory whose tree is
-- bound, as it was at the time.
abbrev pub Content : Type 0
Content = Bytes × Bytes

-- What is on a path after a mount that succeeded, by what the mount moves, if it does, and by what
-- was on the path before.
unfoldable pub placed :
    Bytes → Bytes → Bytes → Bytes → List Flag → Option Content → Option Content → Option Content
unfolding is_move
placed path source target fstype flags moving before =
    if str_eq target path
    then if is_move flags then moving else some (source, fstype)
    else if is_move flags && str_eq source path
    then none
    else before

-- What was mounted on a path last and has not been moved away.
unfoldable pub mounted_on : Kernel Call → Bytes → List Call → Option Content
unfolding placed
mounted_on kernel path [] = none
mounted_on kernel path (mount source target fstype flags ∷ log) =
    let moving = mounted_on kernel source log in
    let before = mounted_on kernel path log in
    if is_ok (kernel log (mount source target fstype flags))
    then placed path source target fstype flags moving before
    else before
mounted_on kernel path (c ∷ log) = mounted_on kernel path log
