-- ===== src/Setup/Confined.antt =====
-- What setupNet touches in the detached mode.
use rootlesskit.Base.{
  if◌then◌else◌, ◌≡◌, refl, ◌⊎◌, inl, inr, Bool, false, Option, none, some, List, [], ◌∷◌, ◌++◌,
  arith, is_ok,
}
use rootlesskit.Text.{Bytes, codes, is_empty}
use rootlesskit.Messages.{InitNetwork}
use rootlesskit.Calls.{◌>>=◌, Kernel, Act, call, Keeps, bind-Keeps, pure, call-bind, deferring}
use rootlesskit.Setup.{
  Call, mount, remove_all, write_file, exec, enter_netns, leave_netns, mkdir_temp, symlink,
  configure_network,
}
use rootlesskit.Setup.Net.{
  Error, System, Driver, generate_etc_hosts, write, activate_loopback, activate, with_netns,
  configure, detached_net, set_up_net, generate_resolv_conf, write_failed, write_hosts, choose_net,
  apply_detached, loopback-Keeps, activate-Keeps,
}

-- The namespace that was entered and not left.
unfoldable pub current : Kernel Call → List Call → Option Bytes
current kernel [] = none
current kernel (enter_netns path ∷ log) =
    if is_ok (kernel log (enter_netns path)) then some path else current kernel log
current kernel (leave_netns path ∷ log) = none
current kernel (c ∷ log) = current kernel log

module _ (sys : System) (dir netns : Bytes) where
  -- `nsenter` is told to run a command in the namespace.
  abbrev pub IsNsenter : List Bytes → Type 0
  IsNsenter cmd = (args : List Bytes) × (cmd ≡ codes "nsenter" ∷ (codes "-n" ++ netns) ∷ args)

  -- Commands run in the namespace or under such an `nsenter`, the only files written are the two of
  -- the state directory, and nothing is mounted, linked or removed; the driver is called from
  -- outside, with the namespace.
  abbrev pub IsAllowed : Call → List Call → Type 0
  IsAllowed (exec cmd) log = (current sys.kernel log ≡ some netns) ⊎ IsNsenter cmd
  IsAllowed (write_file path content) log =
      (path ≡ sys.join dir (codes "hosts")) ⊎ (path ≡ sys.join dir (codes "resolv.conf"))
  IsAllowed (mount source target fstype flags) log = ⊥
  IsAllowed (remove_all path) log = ⊥
  IsAllowed (symlink source target) log = ⊥
  IsAllowed (mkdir_temp parent pattern) log = ⊥
  IsAllowed (configure_network path) log = (path ≡ netns) × (current sys.kernel log ≡ none)
  IsAllowed c log = Unit

  abbrev pub IsConfined : List Call → Type 0
  IsConfined [] = Unit
  IsConfined (c ∷ log) = IsAllowed c log × IsConfined log

  abbrev pub Outside : List Call → Type 0
  Outside log = IsConfined log × (current sys.kernel log ≡ none)

  abbrev Inside : List Call → Type 0
  Inside log = IsConfined log × (current sys.kernel log ≡ some netns)

  hosts-Keeps : Keeps Outside (generate_etc_hosts sys)
  unfolding generate_etc_hosts current
  hosts-Keeps log h = ground arith

  write-Keeps :
      (path content : Bytes)
      → (path ≡ sys.join dir (codes "hosts")) ⊎ (path ≡ sys.join dir (codes "resolv.conf"))
      → Keeps Outside (write sys path content)
  unfolding write current
  write-Keeps path content at =
      bind-Keeps Outside (call sys.kernel (write_failed path) (write_file path content))
        (λ _. pure tt) (λ log h. ((at, h.0), h.1)) (λ _ log h. h)

  exec-Inside : (cmd : List Bytes) (log : List Call) → Inside log → Inside (exec cmd ∷ log)
  unfolding current
  exec-Inside cmd log h = ((inl h.1, h.0), h.1)

  with_netns-Keeps :
      (fn : Act Call Error (Unit {0})) → Keeps Inside fn → Keeps Outside (with_netns sys netns fn)
  unfolding with_netns current
  with_netns-Keeps fn inner log h =
      call-bind (λ o. Outside o.1) sys.kernel _ _ (λ _. deferring (leave_netns netns) fn) log
        (λ t e.
          let (confined, _) = inner (enter_netns netns ∷ log) ((tt, h.0), rw e refl) in
          ((tt, confined), refl))
        (λ x e. ((tt, h.0), rw e h.1))

  module _ {V : Type 0} (driver : Driver V) where
    configure-Keeps :
        (msg : InitNetwork V)
        → Keeps Outside (driver.configure msg netns)
        → Keeps Outside (configure sys driver msg netns)
    unfolding configure current
    configure-Keeps msg own log h = own (configure_network netns ∷ log) (((refl, h.1), h.0), h.1)

    apply_detached-Keeps :
        (out : Bytes × InitNetwork V) → Keeps Outside (apply_detached sys driver dir netns out)
    unfolding apply_detached
    apply_detached-Keeps (dev, msg) =
        let path = sys.join dir (codes "resolv.conf") in
        bind-Keeps Outside (write sys path (generate_resolv_conf msg.dns))
          (λ _. with_netns sys netns (activate sys driver dev msg))
          (write-Keeps path (generate_resolv_conf msg.dns) (inr refl))
          (λ _.
            with_netns-Keeps (activate sys driver dev msg)
              (activate-Keeps sys Inside exec-Inside driver dev msg))

    detached_net-Keeps :
        (msg : InitNetwork V)
        → Keeps Outside (driver.configure msg netns)
        → Keeps Outside (detached_net sys driver dir msg netns)
    unfolding detached_net
    detached_net-Keeps msg own =
        bind-Keeps Outside (with_netns sys netns (activate_loopback sys))
          (λ _. configure sys driver msg netns >>= apply_detached sys driver dir netns)
          (with_netns-Keeps (activate_loopback sys) (loopback-Keeps sys Inside exec-Inside))
          (λ _.
            bind-Keeps Outside (configure sys driver msg netns)
              (apply_detached sys driver dir netns) (configure-Keeps msg own) apply_detached-Keeps)

    choose_net-Keeps :
        (msg : InitNetwork V) (etc : Bool)
        → is_empty netns ≡ false
        → Keeps Outside (driver.configure msg netns)
        → Keeps Outside (choose_net sys driver dir msg etc netns)
    unfolding choose_net
    choose_net-Keeps msg etc detached own log h = rw detached (detached_net-Keeps msg own log h)

  write_hosts-Keeps : Keeps Outside (write_hosts sys dir)
  unfolding write_hosts
  write_hosts-Keeps =
      let path = sys.join dir (codes "hosts") in
      bind-Keeps Outside (generate_etc_hosts sys) (write sys path) hosts-Keeps
        (λ hosts. write-Keeps path hosts (inl refl))

-- In the detached mode, however setupNet ends: nothing is mounted, linked or removed, no file is
-- written but hosts and resolv.conf in the state directory, every command runs inside the detached
-- network namespace, or under an nsenter with its path; the driver is called outside of it and is
-- told its path, and in the end the namespace has been left. It is a premise that the driver keeps
-- to the same in the calls that it makes itself.
pub set_up_net-IsConfined :
    {V : Type 0} (sys : System) (dir netns : Bytes) (msg : InitNetwork V) (etc_was_copied : Bool)
    (driver : Driver V) (log : List Call)
    → is_empty netns ≡ false
    → Keeps (Outside sys dir netns) (driver.configure msg netns)
    → IsConfined sys dir netns log
    → current sys.kernel log ≡ none
    → let log' = (set_up_net sys dir msg etc_was_copied (some driver) netns log).1 in
      IsConfined sys dir netns log' × (current sys.kernel log' ≡ none)
unfolding set_up_net
set_up_net-IsConfined sys dir netns msg etc driver log detached own confined outside =
    bind-Keeps (Outside sys dir netns) (write_hosts sys dir)
      (λ _. choose_net sys driver dir msg etc netns) (write_hosts-Keeps sys dir netns)
      (λ _. choose_net-Keeps sys dir netns driver msg etc detached own) log (confined, outside)
