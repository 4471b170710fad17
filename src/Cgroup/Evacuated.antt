-- ===== src/Cgroup/Evacuated.antt =====
-- The calls of an evacuation, told without the functions that pick lines in the code.
use rootlesskit.Base.{
  All, if◌then◌else◌, ◌≡◌, refl, sym, ap, ◌∙◌, subst, ◌⊎◌, inl, inr, Bool, false, not, ◌&&◌, List,
  [], ◌∷◌, ◌++◌, map, arith, Result, ok, err,
}
use rootlesskit.Text.{Bytes, codes, is_empty, str_eq}
use rootlesskit.Text.Search.{split, contains, fields, has_prefix, trim_prefix}
use rootlesskit.Text.Decimal.{itoa}
use rootlesskit.Calls.{fail_if, fail_if-ok, Act, ◌>>=◌, ◌>>◌, call, call-bind-ok}
use rootlesskit.Cgroup.{
  empty_name, bad_name, System, Call, Error, get_mounts, read_file, mkdir_all, write_file, pids,
  read_failed, mkdir_failed, get_cgroup2, find_mountpoint, write_each, move_all, evacuate_from,
  evacuate_at, evacuate_cgroup2, first_mount, group_text, group_line,
}

-- The writes of some texts to a file, the last one first.
unfoldable pub writes : Bytes → List Bytes → List Call → List Call
writes path [] log = log
writes path (text ∷ texts) log = writes path texts (write_file path text ∷ log)

write_each-writes :
    (sys : System) (path : Bytes) (texts : List Bytes) (log : List Call)
    → write_each sys path texts log ≡ (ok tt, writes path texts log)
unfolding write_each writes
write_each-writes sys path [] log = refl
write_each-writes sys path (text ∷ texts) log =
    write_each-writes sys path texts (write_file path text ∷ log)

then-writes :
    (sys : System) (path : Bytes) (texts : List Bytes) (k : Act Call Error (Unit {0}))
    (log : List Call)
    → (write_each sys path texts >> k) log ≡ k (writes path texts log)
unfolding write_each writes
then-writes sys path [] k log = refl
then-writes sys path (text ∷ texts) k log =
    then-writes sys path texts k (write_file path text ∷ log)

-- The elements that pass a test, in order.
abbrev pub keep_if {ℓ} : {A : Type ℓ} → (A → Bool) → List A → List A
keep_if p [] = []
keep_if p (x ∷ xs) = let rest = keep_if p xs in if p x then x ∷ rest else rest

-- A line that names a process, other than 0, which stands for one outside of the namespace.
abbrev pub is_process : Bytes → Bool
is_process line = not (is_empty line) && not (str_eq line (codes "0"))

pids-keep_if : (lines : List Bytes) → pids lines ≡ keep_if is_process lines
unfolding pids
pids-keep_if [] = refl
pids-keep_if (line ∷ lines) = let ih = pids-keep_if lines in ground (arith, ih)

-- The group that a file of cgroups names: what follows "0::" in the first line that begins so, and
-- nothing if there is no such line or the file cannot be read.
abbrev NoGroup : Bytes → Type 0
NoGroup line = has_prefix line (codes "0::") ≡ false

abbrev pub IsGroup : Result Bytes Bytes → Bytes → Type 0
IsGroup (err e) group = group ≡ []
IsGroup (ok text) group =
    ((before after : List Bytes) × (split text 10 ≡ before ++ (codes "0::" ++ group) ∷ after)
      × All NoGroup before)
    ⊎ ((group ≡ []) × All NoGroup (split text 10))

group_line-first :
    (before after : List Bytes) (group : Bytes)
    → All NoGroup before
    → group_line (before ++ (codes "0::" ++ group) ∷ after) ≡ group
unfolding group_line has_prefix trim_prefix
group_line-first [] after group h = refl
group_line-first (line ∷ before) after group h = rw h.0 (group_line-first before after group h.1)

group_line-none : (lines : List Bytes) → All NoGroup lines → group_line lines ≡ []
unfolding group_line
group_line-none [] h = refl
group_line-none (line ∷ lines) h = rw h.0 (group_line-none lines h.1)

group_text-IsGroup :
    (sys : System) (r : Result Bytes Bytes) (group : Bytes)
    → IsGroup r group
    → group_text sys r ≡ group
unfolding group_text
group_text-IsGroup sys (err e) group h = sym h
group_text-IsGroup sys (ok text) group (inl (before, after, lines, h)) =
    ap group_line lines ∙ group_line-first before after group h
group_text-IsGroup sys (ok text) group (inr (none_here, h)) =
    group_line-none (split text 10) h ∙ sym none_here

module _ (sys : System) (old_path new_path : Bytes) where
  abbrev procs_file : Call
  procs_file = read_file (sys.join old_path (codes "cgroup.procs"))

  abbrev controllers_file : Call
  controllers_file = read_file (sys.join old_path (codes "cgroup.controllers"))

  abbrev moves : Bytes → List Call → List Call
  moves procs =
      writes (sys.join new_path (codes "cgroup.procs")) (keep_if is_process (split procs 10))

  abbrev enables : Bytes → List Call → List Call
  enables controllers =
      writes (sys.join old_path (codes "cgroup.subtree_control"))
        (map (λ c. b'+' ∷ c) (fields controllers))

  -- The calls after some, the last one first, with what was read on the way.
  abbrev pub Moved : List Call → List Call → Type 0
  Moved log log' =
      (procs controllers : Bytes) × (sys.kernel (mkdir_all new_path ∷ log) procs_file ≡ ok procs)
      × (sys.kernel (moves procs (procs_file ∷ mkdir_all new_path ∷ log)) controllers_file
          ≡ ok controllers)
      × (log'
          ≡ enables controllers
              (controllers_file ∷ moves procs (procs_file ∷ mkdir_all new_path ∷ log)))

  enable : Bytes → Act Call Error (Unit {0})
  enable controllers =
      write_each sys (sys.join old_path (codes "cgroup.subtree_control"))
        (map (λ c. b'+' ∷ c) (fields controllers))

  move : Bytes → Act Call Error (Unit {0})
  move procs =
      write_each sys (sys.join new_path (codes "cgroup.procs")) (pids (split procs 10))
      >> (call sys.kernel read_failed controllers_file >>= enable)

  enabled :
      (log log' : List Call) {a : Unit {0}}
      → (call sys.kernel read_failed controllers_file >>= enable) log ≡ (ok a, log')
      → (controllers : Bytes) × (sys.kernel log controllers_file ≡ ok controllers)
        × (log' ≡ enables controllers (controllers_file ∷ log))
  unfolding enable
  enabled log log' h =
      let (controllers, e, h') =
        call-bind-ok sys.kernel read_failed controllers_file enable log h in
      (controllers, e, ap (λ o. o.1) (sym h' ∙ write_each-writes sys _ _ (controllers_file ∷ log)))

  moved :
      (procs : Bytes) (log log' : List Call) {a : Unit {0}}
      → move procs log ≡ (ok a, log')
      → (controllers : Bytes) × (sys.kernel (moves procs log) controllers_file ≡ ok controllers)
        × (log' ≡ enables controllers (controllers_file ∷ moves procs log))
  unfolding move
  moved procs log log' h =
      let to = sys.join new_path (codes "cgroup.procs") in
      let same = ap (λ ps. writes to ps log) (pids-keep_if (split procs 10)) in
      let k = call sys.kernel read_failed controllers_file >>= enable in
      enabled (moves procs log) log'
        (sym (then-writes sys to (pids (split procs 10)) k log ∙ ap k same) ∙ h)

  move_all-Moved :
      (log log' : List Call) {a : Unit {0}}
      → move_all sys old_path new_path log ≡ (ok a, log')
      → Moved log log'
  unfolding move_all move enable
  move_all-Moved log log' h =
      let (_, e0, h0) =
        call-bind-ok sys.kernel mkdir_failed (mkdir_all new_path)
          (λ _. call sys.kernel read_failed procs_file >>= move) log h in
      let (procs, e1, h1) =
        call-bind-ok sys.kernel read_failed procs_file move (mkdir_all new_path ∷ log) h0 in
      let (controllers, e2, last) = moved procs (procs_file ∷ mkdir_all new_path ∷ log) log' h1 in
      (procs, controllers, e1, e2, last)

evacuate_at-mounted :
    (sys : System) (evac mountpoint : Bytes) (log : List Call)
    → is_empty mountpoint ≡ false
    → let c = read_file (codes "/proc/" ++ itoa sys.pid ++ codes "/cgroup") in
      let group = group_text sys (sys.kernel log c) in
      evacuate_at sys evac mountpoint log
      ≡ move_all sys
          (sys.join mountpoint group)
          (sys.join mountpoint (sys.join group evac))
          (c ∷ log)
unfolding evacuate_at evacuate_from get_cgroup2
evacuate_at-mounted sys evac mountpoint log there = rw there (rw there refl)

find_mountpoint-found :
    (sys : System) (k : Bytes → Act Call Error (Unit {0})) (log : List Call) (t mountpoint : Bytes)
    (others : List Bytes)
    → sys.kernel log get_mounts ≡ ok t
    → sys.mounts log ≡ mountpoint ∷ others
    → (find_mountpoint sys >>= k) log ≡ k mountpoint (get_mounts ∷ log)
unfolding find_mountpoint first_mount
find_mountpoint-found sys k log t mountpoint others mounts found = rw (mounts, found) refl

-- Where EvacuateCgroup2 succeeds and a cgroup2 is mounted, it has made the new group and tried to
-- move to it every process that a line of the old group's file names, one by one and in order;
-- empty lines and the process 0 are passed over. Only then, whether the moves succeeded or not, it has
-- tried to turn on every controller of the old group. The old group is the one that the process's
-- own file of cgroups names first after "0::", the root of the mount where that file cannot be read
-- or names none.
pub evacuate_cgroup2-Moved :
    (sys : System) (evac : Bytes) (log log' : List Call) (t mountpoint group : Bytes)
    (others : List Bytes) {a : Unit {0}}
    → sys.kernel log get_mounts ≡ ok t
    → sys.mounts log ≡ mountpoint ∷ others
    → is_empty mountpoint ≡ false
    → IsGroup
        (sys.kernel
          (get_mounts ∷ log)
          (read_file (codes "/proc/" ++ itoa sys.pid ++ codes "/cgroup")))
        group
    → evacuate_cgroup2 sys evac log ≡ (ok a, log')
    → Moved sys
        (sys.join mountpoint group)
        (sys.join mountpoint (sys.join group evac))
        (read_file (codes "/proc/" ++ itoa sys.pid ++ codes "/cgroup") ∷ get_mounts ∷ log)
        log'
unfolding evacuate_cgroup2
evacuate_cgroup2-Moved sys evac log log' t mountpoint group others mounts found there own h =
    let rest = find_mountpoint sys >>= evacuate_at sys evac in
    let (_, h1) =
      fail_if-ok (is_empty evac) empty_name (fail_if (contains evac b'/') bad_name >> rest) log h in
    let (_, h2) = fail_if-ok (contains evac b'/') bad_name rest log h1 in
    let f = find_mountpoint-found sys (evacuate_at sys evac) log t mountpoint others mounts found in
    let g = evacuate_at-mounted sys evac mountpoint (get_mounts ∷ log) there in
    let c = read_file (codes "/proc/" ++ itoa sys.pid ++ codes "/cgroup") in
    let moved_in : Bytes → Type 0 = λ group.
      Moved sys (sys.join mountpoint group) (sys.join mountpoint (sys.join group evac))
        (c ∷ get_mounts ∷ log) log' in
    subst moved_in (group_text-IsGroup sys (sys.kernel (get_mounts ∷ log) c) group own)
      (move_all-Moved sys _ _ _ log' (sym (f ∙ g) ∙ h2))
