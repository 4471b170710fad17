-- ===== src/CopyUp/Copied.antt =====
-- The directories that CopyUp returns as copied, and what setupCopyDir tells of /etc.
use mathlib.Core.List.{append_assoc, append-nil}
use rootlesskit.Base.{
  any, all, All, Bool-cases, ◌≡◌, refl, sym, ap, ◌∙◌, inl, inr, Bool, false, Option, none, some,
  List, [], ◌∷◌, ◌++◌, map, Result, ok, err,
}
use rootlesskit.Text.{Bytes, codes, str_eq}
use rootlesskit.Setup.{Call}
use rootlesskit.CopyUp.{
  System, Error, copy_dir, copy_dirs, copy_up, setup_copy_dir, mkdir_temp, bind0_failed, remove_all,
}

module _ (sys : System) where
  copy_dir-not_tmp :
      (bind0 d : Bytes) (log log' : List Call) {a : Unit {0}}
      → copy_dir sys bind0 d log ≡ (ok a, log')
      → str_eq d (codes "/tmp") ≡ false
  unfolding copy_dir
  copy_dir-not_tmp bind0 d log log' h = elim (Bool-cases (str_eq d (codes "/tmp"))) [
    | inl t ↦ absurd (refused (rw (t, copy_dir) at h))
    | inr f ↦ f
  ]
    where
      refused :
          {e : Error} {l : List Call}
          → Path (Result Error (Unit {0}) × List Call) (err e, l) (ok _, log')
          → ⊥
      refused h = cc

  -- Without an error, all directories were copied, and none of them is /tmp.
  abbrev Complete : List Bytes → List Bytes → List Bytes → Type 0
  Complete dirs acc copied =
      (copied ≡ acc ++ map sys.clean dirs)
      × All (λ d. str_eq d (codes "/tmp") ≡ false) (map sys.clean dirs)

  copy_dirs-Complete :
      (bind0 : Bytes) (dirs acc : List Bytes) (log : List Call)
      → (copy_dirs sys bind0 dirs acc log).0.1 ≡ none
      → Complete dirs acc (copy_dirs sys bind0 dirs acc log).0.0
  unfolding copy_dirs
  copy_dirs-Complete bind0 [] acc log h = (sym (append-nil acc), tt)
  copy_dirs-Complete bind0 (dir ∷ dirs) acc log h =
      split (copy_dir sys bind0 (sys.clean dir) log)
        (λ log' a e. copy_dir-not_tmp bind0 (sys.clean dir) log log' e)
        (copy_dirs-Complete bind0 dirs (acc ++ sys.clean dir ∷ [])) h
    where
      split :
          (o : Result Error (Unit {0}) × List Call)
          → ((log' : List Call)
              → (a : Unit {0}) → o ≡ (ok a, log')
              → str_eq (sys.clean dir) (codes "/tmp") ≡ false)
          → ((log' : List Call)
              → (copy_dirs sys bind0 dirs (acc ++ sys.clean dir ∷ []) log').0.1 ≡ none
              → Complete dirs
                  (acc ++ sys.clean dir ∷ [])
                  (copy_dirs sys bind0 dirs (acc ++ sys.clean dir ∷ []) log').0.0)
          → let (r, log') = o in
            let out : (List Bytes × Option Error) × List Call = elim r [
              | ok _ ↦ copy_dirs sys bind0 dirs (acc ++ sys.clean dir ∷ []) log'
              | err e ↦ ((acc, some e), log')
            ] in
            out.0.1 ≡ none → Complete (dir ∷ dirs) acc out.0.0
      split (ok a, log') other rest h =
          let (all, none_tmp) = rest log' h in
          (
            all ∙ append_assoc acc (sys.clean dir ∷ []) (map sys.clean dirs),
            (other log' a refl, none_tmp),
          )
      split (err e, log') other rest h = absurd (cc h)

  copy_up-Complete :
      (dirs : List Bytes) (log : List Call)
      → (copy_up sys dirs log).0.1 ≡ none
      → Complete dirs [] (copy_up sys dirs log).0.0
  unfolding copy_up
  copy_up-Complete dirs log =
      elim (sys.kernel log (mkdir_temp (codes "/tmp") (codes "rootlesskit-b")))
        as (λ r.
          let c = mkdir_temp (codes "/tmp") (codes "rootlesskit-b") in
          let out : (List Bytes × Option Error) × List Call = elim r [
            | err e ↦ (([], some (bind0_failed e)), c ∷ log)
            | ok bind0 ↦
                let (out, log') = copy_dirs sys bind0 dirs [] (c ∷ log) in
                (out, remove_all bind0 ∷ log')
          ] in
          out.0.1 ≡ none → Complete dirs [] out.0.0) [
            | err e ↦ λ h. absurd (cc h)
            | ok bind0 ↦ λ h. copy_dirs-Complete bind0 dirs [] _ h
          ]

-- Where setupCopyDir succeeds with the driver, /etc counts as copied just if it is one of the
-- directories, cleaned, and none of them is /tmp.
pub setup_copy_dir-etc :
    (sys : System) (dirs : List Bytes) (log log' : List Call) (etc : Bool)
    → setup_copy_dir (some (copy_up sys)) dirs log ≡ ((etc, none), log')
    → (etc ≡ any (λ d. str_eq d (codes "/etc")) (map sys.clean dirs))
      × All (λ d. str_eq d (codes "/tmp") ≡ false) (map sys.clean dirs)
unfolding setup_copy_dir
setup_copy_dir-etc sys dirs log log' etc h =
    let (all, none_tmp) = copy_up-Complete sys dirs log (ap (λ o. o.0.1) h) in
    (rw (← all) (sym (ap (λ o. o.0.0) h)), none_tmp)
