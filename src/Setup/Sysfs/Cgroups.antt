-- ===== src/Setup/Sysfs/Cgroups.antt =====
-- What mountSysfs leaves mounted, and what it removes.
use rootlesskit.Base.{
  ◌≡◌, refl, sym, ap, ◌∙◌, subst, Bool, true, false, Option, none, some, List, [], ◌∷◌, arith,
  Result, ok, err, is_ok,
}
use rootlesskit.Text.{Bytes, codes, str_eq, str_eq_refl}
use rootlesskit.Calls.{Kernel, ◌>>◌, call-bind, act-bind, pure, deferring}
use rootlesskit.Setup.{Call, Content, mkdir_temp, remove_all, mounted_on, is_move}
use rootlesskit.Setup.Sysfs.{
  Error, cgroup_dir, mkdir_failed, mount_or_rdonly, take_cgroup, keep_cgroup, own_sysfs,
  mount_sysfs,
}

module _ (kernel : Kernel Call) where
  abbrev pub own_leaves : Result Error (Unit {0}) → Bool
  own_leaves (err (Error.move_failed d e)) = true
  own_leaves _ = false

  -- What is mounted in the place of the cgroups in the end, and on the new directory meanwhile.
  abbrev pub cgroups : Bool → Content
  cgroups true = (codes "none", codes "cgroup2")
  cgroups false = (cgroup_dir, [])

  abbrev kept : Bool → Option Content
  kept true = none
  kept false = some (cgroup_dir, [])

  abbrev pub tree_if : Bool → Option Content
  tree_if true = some (cgroup_dir, [])
  tree_if false = none

  -- Nothing but the failed move leaves the mount on the new directory; and after a success there
  -- is a mount in the place of the cgroups.
  abbrev pub Placed : Bytes → Bool → Result Error (Unit {0}) × List Call → Type 0
  Placed tmp evacuate (r, log) =
      (mounted_on kernel tmp log ≡ tree_if (own_leaves r))
      × ((is_ok r ≡ true) → mounted_on kernel cgroup_dir log ≡ some (cgroups evacuate))

  mount_or_rdonly-mounted_on :
      (path target fstype : Bytes) (log : List Call)
      → str_eq target path ≡ false
      → mounted_on kernel path (mount_or_rdonly kernel target fstype log).1
        ≡ mounted_on kernel path log
  unfolding mounted_on mount_or_rdonly is_move
  mount_or_rdonly-mounted_on path target fstype log h = ground arith

  take_cgroup-Placed :
      (tmp : Bytes) (evacuate : Bool) (log : List Call)
      → str_eq cgroup_dir tmp ≡ false
      → mounted_on kernel tmp log ≡ kept evacuate
      → Placed tmp evacuate (take_cgroup kernel tmp evacuate log)
  unfolding mounted_on take_cgroup is_move str_eq
  take_cgroup-Placed tmp true log other there = ground (arith, other, there)
  take_cgroup-Placed tmp false log other there = ground (arith, other, there, str_eq_refl tmp)

  mount_or_rdonly-ok :
      (target fstype : Bytes) (log : List Call)
      → (mount_or_rdonly kernel target fstype log).0 ≡ ok tt
  unfolding mount_or_rdonly
  mount_or_rdonly-ok target fstype log = ground arith

  sysfs_then_cgroup :
      (tmp : Bytes) (evacuate : Bool) (log : List Call)
      → str_eq cgroup_dir tmp ≡ false
      → str_eq (codes "/sys") tmp ≡ false
      → mounted_on kernel tmp log ≡ kept evacuate
      → Placed tmp evacuate (
          (mount_or_rdonly kernel (codes "/sys") (codes "sysfs") >> take_cgroup kernel tmp evacuate)
            log)
  sysfs_then_cgroup tmp evacuate log other other_sys there =
      let sysfs = mount_or_rdonly kernel (codes "/sys") (codes "sysfs") in
      let keeps = mount_or_rdonly-mounted_on tmp (codes "/sys") (codes "sysfs") log other_sys in
      act-bind (Placed tmp evacuate) sysfs (λ _. take_cgroup kernel tmp evacuate) log
        (λ a mid e. take_cgroup-Placed tmp evacuate mid other ((rw e at keeps) ∙ there))
        (λ x mid e.
          let good = mount_or_rdonly-ok (codes "/sys") (codes "sysfs") log in
          absurd (cc (sym (ap (λ o. o.0) e) ∙ good)))

  -- What the first mount leaves.
  abbrev Kept : Bytes → Bool → Result Error (Unit {0}) × List Call → Type 0
  Kept tmp evacuate (ok a, log) = mounted_on kernel tmp log ≡ kept evacuate
  Kept tmp evacuate (err e, log) = (mounted_on kernel tmp log ≡ none) × (own_leaves (err e) ≡ false)

  keep_cgroup-Kept :
      (tmp : Bytes) (evacuate : Bool) (log : List Call)
      → mounted_on kernel tmp log ≡ none
      → Kept tmp evacuate (keep_cgroup kernel tmp evacuate log)
  unfolding keep_cgroup mounted_on is_move
  keep_cgroup-Kept tmp true log free = free
  keep_cgroup-Kept tmp false log free =
      call-bind (Kept tmp false) kernel _ _ (λ _. pure tt) log (λ t e. rw (e, str_eq_refl tmp) refl)
        (λ x e. (rw e free, refl))

  own_sysfs-Placed :
      (tmp : Bytes) (evacuate : Bool) (log : List Call)
      → str_eq cgroup_dir tmp ≡ false
      → str_eq (codes "/sys") tmp ≡ false
      → mounted_on kernel tmp log ≡ none
      → Placed tmp evacuate (own_sysfs kernel tmp evacuate log)
  unfolding own_sysfs
  own_sysfs-Placed tmp evacuate log other other_sys free =
      let kept = keep_cgroup-Kept tmp evacuate log free in
      act-bind (Placed tmp evacuate) (keep_cgroup kernel tmp evacuate)
        (λ _.
          mount_or_rdonly kernel (codes "/sys") (codes "sysfs") >> take_cgroup kernel tmp evacuate)
        log
        (λ a mid e.
          let kept' : Kept tmp evacuate (ok a, mid) = rw e at kept in
          sysfs_then_cgroup tmp evacuate mid other other_sys kept')
        (λ x mid e.
          let kept' : Kept tmp evacuate (err x, mid) = rw e at kept in
          (kept'.0 ∙ ap tree_if (sym kept'.1), λ h. absurd (cc h)))

-- Outside the host's network, mountSysfs ends with the removal of the directory that it made under
-- /tmp, if it could make one. Then nothing is mounted there, unless the last move failed: in that
-- case the tree of the cgroups is still bound there. Where mountSysfs succeeds, a new cgroup2, or
-- without the evacuation the tree of the cgroups from before, is mounted in the place of the
-- cgroups. It is a premise that the new directory is neither /sys nor that of the cgroups, and that
-- nothing is mounted on it.
pub mount_sysfs-Placed :
    (kernel : Kernel Call) (evacuate : Bool) (log : List Call) (tmp : Bytes)
    → kernel log (mkdir_temp (codes "/tmp") (codes "rksys")) ≡ ok tmp
    → str_eq cgroup_dir tmp ≡ false
    → str_eq (codes "/sys") tmp ≡ false
    → mounted_on kernel tmp log ≡ none
    → (before : List Call) × ((mount_sysfs kernel false evacuate log).1 ≡ remove_all tmp ∷ before)
      × Placed kernel tmp evacuate ((mount_sysfs kernel false evacuate log).0, before)
unfolding mount_sysfs mounted_on
mount_sysfs-Placed kernel evacuate log tmp made other other_sys free =
    let c = mkdir_temp (codes "/tmp") (codes "rksys") in
    let Q : Result Error (Unit {0}) × List Call → Type 0 = λ o.
      (before : List Call) × (o.1 ≡ remove_all tmp ∷ before)
      × Placed kernel tmp evacuate (o.0, before) in
    let run = λ (t : Bytes). deferring (remove_all t) (own_sysfs kernel t evacuate) in
    call-bind Q kernel mkdir_failed c run log
      (λ t e.
        subst (λ t. Q (run t (c ∷ log))) (new (sym made ∙ e))
          (
            (own_sysfs kernel tmp evacuate (c ∷ log)).1,
            refl,
            own_sysfs-Placed kernel tmp evacuate (c ∷ log) other other_sys free,
          ))
      (λ x e. absurd (cc (sym made ∙ e)))
  where
    new : {t : Bytes} → ◌≡◌ {A = Result Bytes Bytes} (ok tmp) (ok t) → tmp ≡ t
    new h = cc
