-- ===== src/CopyUp.antt =====
-- pkg/copyup/tmpfssymlink/tmpfssymlink.go, and setupCopyDir of pkg/child/child.go.
pub mod Mounts
pub mod Copied
pub mod Links
pub mod Examples
use rootlesskit.Base.{
  any, if◌then◌else◌, Bool, false, Option, none, some, List, [], ◌∷◌, ◌++◌, ok, err,
}
use rootlesskit.Text.{Bytes, codes, str_eq}
use rootlesskit.Calls.{Kernel, Act, ◌>>=◌, ◌>>◌, call, pure, fail_if, done}
use rootlesskit.Setup.{
  Call, mount, mkdir_temp, remove_all, read_dir, read_link, symlink, bind, rec, move,
}

-- What `os.ReadDir` lists: a name, and whether it is a symbolic link.
pub record Entry : Type 0 where
  pub name : Bytes
  pub is_symlink : Bool

pub data Error : Type 0 where
  bind0_failed : Bytes → Error
  not_tmp : Error
  bind_failed tmpfs_failed mkdir_failed : Bytes → Bytes → Error
  move_failed : Bytes → Bytes → Bytes → Error
  read_dir_failed read_link_failed remove_failed : Bytes → Bytes → Error
  symlink_failed : Bytes → Bytes → Bytes → Error
  no_driver : Error

-- `filepath.Clean`, `Join` and `Base`, and the listing of a directory by the calls made before.
pub record System : Type 0 where
  pub kernel : Kernel Call
  pub clean : Bytes → Bytes
  pub join : Bytes → Bytes → Bytes
  pub base : Bytes → Bytes
  pub entries : List Call → Bytes → List Entry

module _ (sys : System) where
  unfoldable pub list_dir : Bytes → Act Call Error (List Entry)
  list_dir path log = elim (sys.kernel log (read_dir path)) [
    | ok _ ↦ (ok (sys.entries log path), read_dir path ∷ log)
    | err e ↦ (err (read_dir_failed path e), read_dir path ∷ log)
  ]

  -- What the link of an entry points to.
  unfoldable pub link_source : Bytes → Entry → Act Call Error Bytes
  link_source bind1 f =
      let full = sys.join bind1 f.name in
      if f.is_symlink
      then call sys.kernel (read_link_failed full) (read_link full)
      else pure (sys.join (sys.base bind1) f.name)

  unfoldable pub finish_link : Bytes → Entry → Bytes → Act Call Error (Unit {0})
  finish_link d f source = do
    let target = sys.join d f.name
    call sys.kernel (remove_failed target) (remove_all target)
    done (call sys.kernel (symlink_failed source target) (symlink source target))

  unfoldable pub link_file : Bytes → Bytes → Entry → Act Call Error (Unit {0})
  unfolding link_source finish_link
  link_file bind1 d f = link_source bind1 f >>= finish_link d f

  unfoldable pub link_files : Bytes → Bytes → List Entry → Act Call Error (Unit {0})
  unfolding link_file
  link_files bind1 d [] = pure tt
  link_files bind1 d (f ∷ fs) = link_file bind1 d f >> link_files bind1 d fs

  unfoldable pub link_dir : Bytes → Bytes → Act Call Error (Unit {0})
  unfolding list_dir link_files
  link_dir bind1 d = list_dir bind1 >>= link_files bind1 d

  -- One round of the loop over the directories, `d` cleaned.
  unfoldable pub copy_dir : Bytes → Bytes → Act Call Error (Unit {0})
  unfolding link_dir
  copy_dir bind0 d = do
    fail_if (str_eq d (codes "/tmp")) not_tmp
    call sys.kernel (bind_failed d) (mount d bind0 [] (bind ∷ rec ∷ []))
    call sys.kernel (tmpfs_failed d) (mount (codes "none") d (codes "tmpfs") [])
    bind1 ← call sys.kernel (mkdir_failed d) (mkdir_temp d (codes ".ro"))
    call sys.kernel (move_failed bind0 bind1) (mount bind0 bind1 [] (move ∷ []))
    link_dir bind1 d

  -- `copied` and the error are both returned.
  unfoldable pub copy_dirs :
      Bytes → List Bytes → List Bytes → List Call → (List Bytes × Option Error) × List Call
  unfolding copy_dir
  copy_dirs bind0 [] copied log = ((copied, none), log)
  copy_dirs bind0 (dir ∷ dirs) copied log =
      let d = sys.clean dir in
      let (r, log') = copy_dir bind0 d log in
      elim r [
        | ok _ ↦ copy_dirs bind0 dirs (copied ++ d ∷ []) log'
        | err e ↦ ((copied, some e), log')
      ]

  -- `CopyUp`; the new directory is removed however the loop ended.
  unfoldable pub copy_up : List Bytes → List Call → (List Bytes × Option Error) × List Call
  unfolding copy_dirs
  copy_up dirs log =
      let c = mkdir_temp (codes "/tmp") (codes "rootlesskit-b") in
      elim (sys.kernel log c) [
        | err e ↦ (([], some (bind0_failed e)), c ∷ log)
        | ok bind0 ↦
            let (out, log') = copy_dirs bind0 dirs [] (c ∷ log) in (out, remove_all bind0 ∷ log')
      ]

abbrev pub is_etc : Bytes → Bool
is_etc d = str_eq d (codes "/etc")

-- The interface `copyup.ChildDriver`.
abbrev pub Driver : Type 0
Driver = List Bytes → List Call → (List Bytes × Option Error) × List Call

-- `setupCopyDir`: whether /etc was copied, and the error.
unfoldable pub setup_copy_dir :
    Option Driver → List Bytes → List Call → (Bool × Option Error) × List Call
setup_copy_dir (some driver) dirs log =
    let ((copied, e), log') = driver dirs log in ((any is_etc copied, e), log')
setup_copy_dir none [] log = ((false, none), log)
setup_copy_dir none (d ∷ ds) log = ((false, some no_driver), log)
