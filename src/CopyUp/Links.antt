-- ===== src/CopyUp/Links.antt =====
-- What is in the place of the entries of a directory that was copied up.
use rootlesskit.Base.{
  All, if◌then◌else◌, Bool-cases, ◌≡◌, refl, ap, ◌∙◌, ◌⊎◌, inl, inr, true, false, ◌&&◌, Option,
  none, some, List, [], ◌∷◌, arith, Result, ok, wrap_err, is_ok,
}
use rootlesskit.Text.{Bytes, str_eq, str_eq_refl}
use rootlesskit.Calls.{Kernel, act-bind, act-bind-ok}
use rootlesskit.Setup.{Call, symlink, remove_all, read_link}
use rootlesskit.CopyUp.{
  System, Error, Entry, link_source, link_file, link_files, list_dir, link_dir, finish_link,
}

-- The link that stands at a path: the last one made there and not removed.
unfoldable pub link_at : Kernel Call → Bytes → List Call → Option Bytes
link_at kernel path [] = none
link_at kernel path (symlink source target ∷ log) =
    if is_ok (kernel log (symlink source target)) && str_eq target path
    then some source
    else link_at kernel path log
link_at kernel path (remove_all target ∷ log) =
    if str_eq target path then none else link_at kernel path log
link_at kernel path (c ∷ log) = link_at kernel path log

module _ (sys : System) (bind1 d : Bytes) where
  abbrev pub place : Entry → Bytes
  place f = sys.join d f.name

  -- What a link must point to: the entry itself, or what it points to if it is a link.
  abbrev pub Points : Entry → Bytes → Type 0
  Points f source =
      ((f.is_symlink ≡ false) × (source ≡ sys.join (sys.base bind1) f.name))
      ⊎ ((f.is_symlink ≡ true)
          × ((log : List Call) × (sys.kernel log (read_link (sys.join bind1 f.name)) ≡ ok source)))

  abbrev pub IsLinked : List Call → Entry → Type 0
  IsLinked log f =
      (source : Bytes) × (link_at sys.kernel (place f) log ≡ some source) × Points f source

  link_source-Points :
      (f : Entry) (log mid : List Call) (source : Bytes)
      → link_source sys bind1 f log ≡ (ok source, mid)
      → Points f source
  unfolding link_source
  link_source-Points f log mid source h = elim (Bool-cases f.is_symlink) [
    | inl link ↦ inr (link, (log, read _ _ (rw link at (ap (λ o. o.0) h))))
    | inr file ↦ inl (file, made (rw file at (ap (λ o. o.0) h)))
  ]
    where
      read : (e : Bytes → Error) (r : Result Bytes Bytes) → wrap_err e r ≡ ok source → r ≡ ok source
      read e r h = ground arith

      made : {s : Bytes} → ◌≡◌ {A = Result Error Bytes} (ok s) (ok source) → source ≡ s
      made h = cc

  made_link :
      (f : Entry) (source : Bytes) (mid log' : List Call) {a : Unit {0}}
      → finish_link sys d f source mid ≡ (ok a, log')
      → link_at sys.kernel (place f) log' ≡ some source
  unfolding link_at finish_link
  made_link f source mid log' h = ground (arith, str_eq_refl (place f))

  link_file-IsLinked :
      (f : Entry) (log log' : List Call) {a : Unit {0}}
      → link_file sys bind1 d f log ≡ (ok a, log')
      → IsLinked log' f
  unfolding link_file
  link_file-IsLinked f log log' h =
      let (source, mid, e1, e2) =
        act-bind-ok (link_source sys bind1 f) (finish_link sys d f) log h in
      (source, made_link f source mid log' e2, link_source-Points f log mid source e1)

  link_file-other :
      (f : Entry) (path : Bytes) (log : List Call)
      → str_eq (place f) path ≡ false
      → link_at sys.kernel path (link_file sys bind1 d f log).1 ≡ link_at sys.kernel path log
  unfolding link_at link_file link_source finish_link
  link_file-other f path log h = ground arith

  link_files-other :
      (fs : List Entry) (path : Bytes) (log : List Call)
      → All (λ f. str_eq (place f) path ≡ false) fs
      → link_at sys.kernel path (link_files sys bind1 d fs log).1 ≡ link_at sys.kernel path log
  unfolding link_files
  link_files-other [] path log h = refl
  link_files-other (f ∷ fs) path log h =
      let first = link_file-other f path log h.0 in
      act-bind (λ o. link_at sys.kernel path o.1 ≡ link_at sys.kernel path log)
        (link_file sys bind1 d f) (λ _. link_files sys bind1 d fs) log
        (λ a mid e. link_files-other fs path mid h.1 ∙ (rw e at first)) (λ x mid e. rw e at first)

  -- No two entries have the same place.
  abbrev pub AreDistinct : List Entry → Type 0
  AreDistinct [] = Unit
  AreDistinct (f ∷ fs) = All (λ g. str_eq (place g) (place f) ≡ false) fs × AreDistinct fs

  link_files-AreLinked :
      (fs : List Entry) (log log' : List Call) {a : Unit {0}}
      → AreDistinct fs
      → link_files sys bind1 d fs log ≡ (ok a, log')
      → All (IsLinked log') fs
  unfolding link_files
  link_files-AreLinked [] log log' u h = tt
  link_files-AreLinked (f ∷ fs) log log' {a} u h =
      let (b, mid, e1, e2) =
        act-bind-ok (link_file sys bind1 d f) (λ _. link_files sys bind1 d fs) log h in
      let (source, at, points) = link_file-IsLinked f log mid e1 in
      let keeps = link_files-other fs (place f) mid u.0 in
      let last : (link_files sys bind1 d fs mid).1 ≡ log' = ap (λ o. o.1) e2 in
      ((source, (rw last at keeps) ∙ at, points), link_files-AreLinked fs mid log' u.1 e2)

-- Where the loop over the entries of a directory succeeds, each entry that was listed has a link in
-- the place it had before: to the entry in the directory that holds the old contents, or, if it is
-- a symbolic link, to what it points to. It is a premise that no two entries have one place.
pub link_dir-AreLinked :
    (sys : System) (bind1 d : Bytes) (log log' : List Call) {a : Unit {0}}
    → AreDistinct sys bind1 d (sys.entries log bind1)
    → link_dir sys bind1 d log ≡ (ok a, log')
    → All (IsLinked sys bind1 d log') (sys.entries log bind1)
unfolding link_dir list_dir
link_dir-AreLinked sys bind1 d log log' u h =
    let (files, mid, e1, e2) = act-bind-ok (list_dir sys bind1) (link_files sys bind1 d) log h in
    let same : files ≡ sys.entries log bind1 = ground arith in
    link_files-AreLinked sys bind1 d (sys.entries log bind1) mid log' u (rw same at e2)
