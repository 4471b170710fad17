-- ===== src/Setup/Files.antt =====
-- What the child reads in /etc/resolv.conf and /etc/hosts after setupNet.
use rootlesskit.Base.{
  All, if◌then◌else◌, ◌≡◌, false, ◌&&◌, Option, none, some, List, [], ◌∷◌, arith, ok, is_ok,
}
use rootlesskit.Text.{Bytes, str_eq, str_eq_refl}
use rootlesskit.Messages.{InitNetwork}
use rootlesskit.Calls.{Kernel, ◌>>◌, call, Keeps, bind-Keeps, pure}
use rootlesskit.Setup.{Call, mount, remove_all, write_file, exec, bind, configure_network}
use rootlesskit.Setup.Net.{
  System, Driver, write, configure, replace_files, bind_file, remove_failed, write_failed,
  bind_failed,
}

module _ (kernel : Kernel Call) (path : Bytes) where
  -- The content of a file: what was last written there and not removed.
  unfoldable pub content : List Call → Option Bytes
  content [] = none
  content (write_file target text ∷ log) =
      if is_ok (kernel log (write_file target text)) && str_eq target path
      then some text
      else content log
  content (remove_all target ∷ log) = if str_eq target path then none else content log
  content (c ∷ log) = content log

  -- What was last mounted on a path.
  unfoldable pub bound : List Call → Option Bytes
  bound [] = none
  bound (mount source target fstype flags ∷ log) =
      if is_ok (kernel log (mount source target fstype flags)) && str_eq target path
      then some source
      else bound log
  bound (c ∷ log) = bound log

unfoldable pub read_bound : Kernel Call → Bytes → List Call → Option Bytes → Option Bytes
unfolding content
read_bound kernel path log none = content kernel path log
read_bound kernel path log (some source) = content kernel source log

-- What is read at a path: the content of the file that is mounted there, or its own.
unfoldable pub seen : Kernel Call → Bytes → List Call → Option Bytes
unfolding read_bound bound
seen kernel path log = read_bound kernel path log (bound kernel path log)

module _ (sys : System) (path text : Bytes) where
  abbrev pub Has : List Call → Type 0
  Has log = content sys.kernel path log ≡ some text

  pub exec-Has : (cmd : List Bytes) (log : List Call) → Has log → Has (exec cmd ∷ log)
  unfolding content
  exec-Has cmd log h = h

  pub configure-Has :
      {V : Type 0} (driver : Driver V) (msg : InitNetwork V) (netns : Bytes)
      → Keeps Has (driver.configure msg netns)
      → Keeps Has (configure sys driver msg netns)
  unfolding configure content
  configure-Has driver msg netns own log h = own (configure_network netns ∷ log) h

  pub write-Has : (other t : Bytes) → str_eq other path ≡ false → Keeps Has (write sys other t)
  unfolding write content
  write-Has other t apart =
      bind-Keeps Has (call sys.kernel (write_failed other) (write_file other t)) (λ _. pure tt)
        (λ log h. ground (arith, h, apart)) (λ _ log h. h)

  remove-Has :
      (f : Bytes)
      → str_eq f path ≡ false
      → Keeps Has (call sys.kernel (remove_failed f) (remove_all f))
  unfolding content
  remove-Has f apart log h = rw apart h

  pub replace-Has :
      (fs : List Bytes) → All (λ f. str_eq f path ≡ false) fs → Keeps Has (replace_files sys fs)
  unfolding replace_files
  replace-Has [] apart log h = h
  replace-Has (f ∷ fs) apart log h =
      bind-Keeps Has (call sys.kernel (remove_failed f) (remove_all f))
        (λ _. write sys f [] >> replace_files sys fs) (remove-Has f apart.0)
        (λ _.
          bind-Keeps Has (write sys f []) (λ _. replace_files sys fs) (write-Has f [] apart.0)
            (λ _. replace-Has fs apart.1))
        log h

  pub write-there :
      (log mid : List Call) {a : Unit {0}} → write sys path text log ≡ (ok a, mid) → Has mid
  unfolding write content
  write-there log mid e = ground (arith, str_eq_refl path)

  pub bind-Has : (source target : Bytes) → Keeps Has (bind_file sys source target)
  unfolding bind_file content
  bind-Has source target =
      bind-Keeps Has (call sys.kernel (bind_failed target) (mount source target [] (bind ∷ [])))
        (λ _. pure tt) (λ log h. h) (λ _ log h. h)

module _ (sys : System) where
  pub bind-bound :
      (source target : Bytes) (log mid : List Call) {a : Unit {0}}
      → bind_file sys source target log ≡ (ok a, mid)
      → bound sys.kernel target mid ≡ some source
  unfolding bind_file bound
  bind-bound source target log mid e = ground (arith, str_eq_refl target)

  pub bind-bound_other :
      (source target path s : Bytes)
      → str_eq target path ≡ false
      → Keeps (λ log. bound sys.kernel path log ≡ some s) (bind_file sys source target)
  unfolding bind_file bound
  bind-bound_other source target path s apart log h = ground (arith, apart, h)
