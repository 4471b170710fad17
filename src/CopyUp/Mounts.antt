-- ===== src/CopyUp/Mounts.antt =====
-- What is mounted on the directory that CopyUp makes under /tmp when it removes that directory.
use mathlib.Core.List.{append_assoc}
use rootlesskit.Base.{
  All, Bool-cases, ◌≡◌, refl, ap, ◌∙◌, ◌⊎◌, inl, inr, Bool, true, false, Option, none, some, List,
  [], ◌∷◌, ◌++◌, map, arith, Result, ok, err,
}
use rootlesskit.Text.{Bytes, codes, str_eq, str_eq_refl}
use rootlesskit.Calls.{Act, ◌>>=◌, ◌>>◌, call, act-bind, call-bind}
use rootlesskit.Setup.{Call, Content, mounted_on, is_move}
use rootlesskit.CopyUp.{
  System, Error, Entry, link_source, link_file, link_files, list_dir, copy_dir, mkdir_temp,
  link_dir, move_failed, mkdir_failed, tmpfs_failed, mount, move, copy_up, copy_dirs, remove_all,
}

-- The errors that come between the bind mount and its move.
abbrev pub leaves_mount : Error → Bool
leaves_mount (Error.tmpfs_failed d e) = true
leaves_mount (Error.mkdir_failed d e) = true
leaves_mount (Error.move_failed b d e) = true
leaves_mount _ = false

abbrev dir_leaves : Result Error (Unit {0}) → Bool
dir_leaves (ok a) = false
dir_leaves (err e) = leaves_mount e

abbrev pub run_leaves : Option Error → Bool
run_leaves none = false
run_leaves (some e) = leaves_mount e

module _ (sys : System) where
  -- The links leave the mounts alone, and their errors come after the move.
  abbrev Quiet : Bytes → List Call → Result Error (Unit {0}) × List Call → Type 0
  Quiet path log (r, log') =
      (mounted_on sys.kernel path log' ≡ mounted_on sys.kernel path log) × (dir_leaves r ≡ false)

  link_file-mounted_on :
      (path bind1 d : Bytes) (f : Entry) (log : List Call)
      → (mounted_on sys.kernel path (link_file sys bind1 d f log).1
          ≡ mounted_on sys.kernel path log)
        × (dir_leaves (link_file sys bind1 d f log).0 ≡ false)
  unfolding mounted_on link_file link_source
  link_file-mounted_on path bind1 d f log = (ground arith, ground arith)

  link_files-mounted_on :
      (path bind1 d : Bytes) (fs : List Entry) (log : List Call)
      → Quiet path log (link_files sys bind1 d fs log)
  unfolding link_files
  link_files-mounted_on path bind1 d [] log = (refl, refl)
  link_files-mounted_on path bind1 d (f ∷ fs) log =
      let first = link_file-mounted_on path bind1 d f log in
      act-bind (Quiet path log) (link_file sys bind1 d f) (λ _. link_files sys bind1 d fs) log
        (λ a mid e.
          let rest = link_files-mounted_on path bind1 d fs mid in
          let here : Quiet path log (ok a, mid) = rw e at first in (rest.0 ∙ here.0, rest.1))
        (λ x mid e. rw e at first)

  list_dir-mounted_on :
      (path bind1 : Bytes) (log : List Call)
      → mounted_on sys.kernel path (list_dir sys bind1 log).1 ≡ mounted_on sys.kernel path log
  unfolding list_dir mounted_on
  list_dir-mounted_on path bind1 log = ground arith

list_dir_quiet :
    (sys : System) (bind1 : Bytes) (log : List Call) {e : Error}
    → (list_dir sys bind1 log).0 ≡ err e
    → leaves_mount e ≡ false
unfolding list_dir
list_dir_quiet sys bind1 log h = ground arith

module _ (sys : System) (bind0 : Bytes) where
  -- A directory with another prefix in its name is not `bind0`.
  abbrev IsNew : Type 0
  IsNew =
      (log : List Call) (parent bind1 : Bytes)
      → sys.kernel log (mkdir_temp parent (codes ".ro")) ≡ ok bind1
      → str_eq bind1 bind0 ≡ false

  -- A round for a directory leaves its tree on `bind0`, or nothing.
  abbrev pub tree_if : Bytes → Bool → Option Content
  tree_if d true = some (d, [])
  tree_if d false = none

  abbrev Left : Bytes → Result Error (Unit {0}) × List Call → Type 0
  Left d (r, log) = mounted_on sys.kernel bind0 log ≡ tree_if d (dir_leaves r)

  link_dir-mounted_on :
      (d bind1 : Bytes) (log : List Call)
      → mounted_on sys.kernel bind0 log ≡ none
      → Left d (link_dir sys bind1 d log)
  unfolding link_dir
  link_dir-mounted_on d bind1 log free =
      let before = list_dir-mounted_on sys bind0 bind1 log in
      act-bind (Left d) (list_dir sys bind1) (link_files sys bind1 d) log
        (λ files mid e.
          let (same, quiet) = link_files-mounted_on sys bind0 bind1 d files mid in
          ground (arith, before, same, quiet))
        (λ x mid e. ground (arith, before, list_dir_quiet sys bind1 log {e = x} (ap (λ o. o.0) e)))

  -- The calls of a round after the bind mount, the tmpfs, and the new directory.
  abbrev move_away : Bytes → Bytes → Act Call Error (Unit {0})
  move_away d bind1 =
      call sys.kernel (move_failed bind0 bind1) (mount bind0 bind1 [] (move ∷ []))
      >> link_dir sys bind1 d

  abbrev make_room : Bytes → Act Call Error (Unit {0})
  make_room d = call sys.kernel (mkdir_failed d) (mkdir_temp d (codes ".ro")) >>= move_away d

  abbrev cover : Bytes → Act Call Error (Unit {0})
  cover d =
      call sys.kernel (tmpfs_failed d) (mount (codes "none") d (codes "tmpfs") []) >> make_room d

  move_away-mounted_on :
      (d bind1 : Bytes) (log : List Call)
      → str_eq bind1 bind0 ≡ false
      → mounted_on sys.kernel bind0 log ≡ some (d, [])
      → Left d (move_away d bind1 log)
  unfolding mounted_on is_move
  move_away-mounted_on d bind1 log other there =
      call-bind (Left d) sys.kernel _ _ (λ _. link_dir sys bind1 d) log
        (λ t e. link_dir-mounted_on d bind1 _ (rw (e, other, str_eq_refl bind0) refl))
        (λ x e. rw (e, there) refl)

  make_room-mounted_on :
      IsNew
      → (d : Bytes) (log : List Call) → mounted_on sys.kernel bind0 log ≡ some (d, [])
      → Left d (make_room d log)
  unfolding mounted_on
  make_room-mounted_on new d log there =
      call-bind (Left d) sys.kernel _ _ (move_away d) log
        (λ bind1 e. move_away-mounted_on d bind1 _ (new log d bind1 e) there) (λ x e. there)

  cover-mounted_on :
      IsNew
      → (d : Bytes) (log : List Call) → str_eq d bind0 ≡ false
      → mounted_on sys.kernel bind0 log ≡ some (d, [])
      → Left d (cover d log)
  unfolding mounted_on is_move
  cover-mounted_on new d log other there =
      call-bind (Left d) sys.kernel _ _ (λ _. make_room d) log
        (λ t e. make_room-mounted_on new d _ (rw (e, other, there) refl))
        (λ x e. rw (e, there) refl)

  -- A round leaves a mount on `bind0` just if it fails between the bind mount and the move.
  pub copy_dir-mounted_on :
      IsNew
      → (d : Bytes) (log : List Call) → str_eq d bind0 ≡ false
      → mounted_on sys.kernel bind0 log ≡ none
      → Left d (copy_dir sys bind0 d log)
  unfolding copy_dir mounted_on is_move
  copy_dir-mounted_on new d log other free = elim (Bool-cases (str_eq d (codes "/tmp"))) [
    | inl tmp ↦ rw tmp free
    | inr not_tmp ↦ rw not_tmp (
        call-bind (Left d) sys.kernel _ _ (λ _. cover d) log
          (λ t e. cover-mounted_on new d _ other (rw (e, str_eq_refl bind0) refl))
          (λ x e. rw (e, free) refl))
  ]

  abbrev pub AreOther : List Bytes → Type 0
  AreOther = All (λ d. str_eq (sys.clean d) bind0 ≡ false)

  -- What is on `bind0` when the loop has ended, for all directories, cleaned: nothing, or, after
  -- those errors, the tree of the directory that follows the copied ones.
  abbrev pub RunLeft : List Bytes → (List Bytes × Option Error) × List Call → Type 0
  RunLeft all ((copied, e), log) =
      ((run_leaves e ≡ false) × (mounted_on sys.kernel bind0 log ≡ none))
      ⊎ ((run_leaves e ≡ true)
          × ((d : Bytes) × (later : List Bytes) × (all ≡ copied ++ d ∷ later)
              × (mounted_on sys.kernel bind0 log ≡ some (d, []))))

  copy_dirs-RunLeft :
      IsNew
      → (dirs copied : List Bytes) (log : List Call) → AreOther dirs
      → mounted_on sys.kernel bind0 log ≡ none
      → RunLeft (copied ++ map sys.clean dirs) (copy_dirs sys bind0 dirs copied log)
  unfolding copy_dirs
  copy_dirs-RunLeft new [] copied log other free = inl (refl, free)
  copy_dirs-RunLeft new (dir ∷ dirs) copied log other free =
      split (copy_dir sys bind0 (sys.clean dir) log)
        (copy_dir-mounted_on new (sys.clean dir) log other.0 free)
        (λ log' free'.
          let ih = copy_dirs-RunLeft new dirs (copied ++ sys.clean dir ∷ []) log' other.1 free' in
          rw append_assoc at ih)
    where
      all : List Bytes
      all = copied ++ sys.clean dir ∷ map sys.clean dirs

      split :
          (o : Result Error (Unit {0}) × List Call)
          → Left (sys.clean dir) o
          → ((log' : List Call)
              → mounted_on sys.kernel bind0 log' ≡ none
              → RunLeft all (copy_dirs sys bind0 dirs (copied ++ sys.clean dir ∷ []) log'))
          → let (r, log') = o in
            RunLeft all (elim r as (λ _. (List Bytes × Option Error) × List Call) [
              | ok _ ↦ copy_dirs sys bind0 dirs (copied ++ sys.clean dir ∷ []) log'
              | err e ↦ ((copied, some e), log')
            ])
      split (ok _, log') left rest = rest log' left
      split (err e, log') left rest = elim (Bool-cases (leaves_mount e)) [
        | inl t ↦ inr (t, (sys.clean dir, map sys.clean dirs, refl, rw t at left))
        | inr f ↦ inl (f, rw f at left)
      ]

-- CopyUp removes the directory that it made under /tmp last of all, with everything below it. Then
-- nothing is mounted there, unless CopyUp failed to mount the tmpfs, to make the directory for the
-- old contents, or to move the mount there: in those cases the directory of the list that follows
-- the copied ones is still bound there. It is a premise that directories whose names begin
-- otherwise are other directories, and that none of the directories to copy is the new one.
pub copy_up-removes :
    (sys : System) (dirs : List Bytes) (log : List Call) (bind0 : Bytes)
    → sys.kernel log (mkdir_temp (codes "/tmp") (codes "rootlesskit-b")) ≡ ok bind0
    → IsNew sys bind0
    → AreOther sys bind0 dirs
    → mounted_on sys.kernel bind0 log ≡ none
    → (before : List Call) × ((copy_up sys dirs log).1 ≡ remove_all bind0 ∷ before)
      × RunLeft sys bind0 (map sys.clean dirs) ((copy_up sys dirs log).0, before)
unfolding copy_up mounted_on
copy_up-removes sys dirs log bind0 made new other free =
    let c = mkdir_temp (codes "/tmp") (codes "rootlesskit-b") in
    (
      (copy_dirs sys bind0 dirs [] (c ∷ log)).1,
      rw (made, copy_up) refl,
      rw (made, copy_up) (copy_dirs-RunLeft sys bind0 new dirs [] (c ∷ log) other free),
    )
