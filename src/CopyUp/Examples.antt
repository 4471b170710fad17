-- ===== src/CopyUp/Examples.antt =====
-- A copy-up of /etc with a file and a link, and one in which the tmpfs cannot be mounted.
use rootlesskit.Base.{
  All, drop, if◌then◌else◌, ◌≡◌, refl, Bool, true, false, some, List, [], ◌∷◌, ◌++◌, Result, ok,
  err,
}
use rootlesskit.Text.{Bytes, codes, str_eq}
use rootlesskit.Setup.{Call, mkdir_temp, mount, read_link, remove_all, mounted_on}
use rootlesskit.CopyUp.{System, Entry, tmpfs_failed, copy_up, link_dir}
use rootlesskit.CopyUp.Mounts.{copy_up-removes, RunLeft}
use rootlesskit.CopyUp.Links.{link_dir-AreLinked, IsLinked}

abbrev bind0_dir : Bytes
bind0_dir = codes "/tmp/rootlesskit-b1"

abbrev answers : Bool → List Call → Call → Result Bytes Bytes
answers tmpfs log (mkdir_temp dir pattern) =
    ok (if str_eq pattern (codes ".ro") then codes "/etc/.ro1" else bind0_dir)
answers tmpfs log (read_link path) = ok (codes "../run/resolv.conf")
answers tmpfs log (mount source target [] flags) = ok []
answers tmpfs log (mount source target (c ∷ fstype) flags) =
    if tmpfs then ok [] else err (codes "EPERM")
answers tmpfs log c = ok []

abbrev listed : List Entry
listed =
    record { name = codes "hosts"; is_symlink = false }
    ∷ record { name = codes "resolv.conf"; is_symlink = true }
    ∷ []

abbrev machine : Bool → System
machine tmpfs = record {
  kernel = answers tmpfs;
  clean = λ d. d;
  join = λ a b. a ++ b'/' ∷ b;
  base = λ d. drop 5 d;
  entries = λ log d. listed;
}

abbrev etc : List Bytes
etc = codes "/etc" ∷ []

refused :
    (copy_up (machine false) etc []).0 ≡ ([], some (tmpfs_failed (codes "/etc") (codes "EPERM")))
unfolding copy_up str_eq
refused = refl

bind1_dir :
    (bind1 : Bytes)
    → ◌≡◌ {A = Result Bytes Bytes} (ok (codes "/etc/.ro1")) (ok bind1)
    → str_eq bind1 bind0_dir ≡ false
unfolding str_eq
bind1_dir bind1 h = let e : codes "/etc/.ro1" ≡ bind1 = cc in rw (← e) refl

copy_up-removes_example :
    (before : List Call) × ((copy_up (machine false) etc []).1 ≡ remove_all bind0_dir ∷ before)
    × RunLeft (machine false) bind0_dir etc ((copy_up (machine false) etc []).0, before)
unfolding str_eq mounted_on
copy_up-removes_example =
    copy_up-removes (machine false) etc [] bind0_dir refl (λ log parent. bind1_dir) (refl, tt) refl

link_dir-AreLinked_example :
    All
      (IsLinked
        (machine true)
        (codes "/etc/.ro1")
        (codes "/etc")
        (link_dir (machine true) (codes "/etc/.ro1") (codes "/etc") []).1)
      listed
unfolding link_dir str_eq
link_dir-AreLinked_example =
    link_dir-AreLinked (machine true) (codes "/etc/.ro1") (codes "/etc") [] _ ((refl, tt), (tt, tt))
      refl
