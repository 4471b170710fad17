-- ===== src/Setup/Net.antt =====
-- setupNet of pkg/child/child.go, with activateLoopback and activateDev, generateEtcHosts of hosts.go
-- and generateResolvConf of resolvconf.go, and Execs of pkg/common/exec.go.
use rootlesskit.Base.{
  all, if◌then◌else◌, Bool-cases, ℤ, inl, inr, Bool, not, Option, none, some, List, [], ◌∷◌, ◌++◌,
  wrap_err,
}
use rootlesskit.Text.{Bytes, codes, is_empty}
use rootlesskit.Text.Decimal.{itoa}
use rootlesskit.Messages.{InitNetwork}
use rootlesskit.Calls.{
  Kernel, Act, ◌>>=◌, ◌>>◌, call, pure, when, done, deferring, Keeps, bind-Keeps,
}
use rootlesskit.Setup.{
  Call, mount, remove_all, read_file, write_file, hostname, exec, enter_netns, leave_netns,
  configure_network, bind,
}

pub data Error : Type 0 where
  read_hosts_failed hostname_failed configure_failed : Bytes → Error
  write_failed remove_failed bind_failed netns_failed : Bytes → Bytes → Error
  exec_failed : List (List Bytes) → Bytes → Error

-- `network.ChildDriver`, of any driver. Its ConfigureNetworkChild makes calls of its own, and gives
-- the device and the message, that it may have changed.
pub record Driver (V : Type 0) : Type 0 where
  pub configure : InitNetwork V → Bytes → Act Call Bytes (Bytes × InitNetwork V)
  pub configures_interface : Bool

-- `filepath.Join`, and the kernel.
pub record System : Type 0 where
  pub kernel : Kernel Call
  pub join : Bytes → Bytes → Bytes

unfoldable pub generate_resolv_conf : List Bytes → Bytes
generate_resolv_conf [] = []
generate_resolv_conf (nameserver ∷ rest) =
    codes "nameserver " ++ (nameserver ++ 10 ∷ generate_resolv_conf rest)

module _ (sys : System) where
  unfoldable pub generate_etc_hosts : Act Call Error Bytes
  generate_etc_hosts = do
    content ← call sys.kernel read_hosts_failed (read_file (codes "/etc/hosts"))
    name ← call sys.kernel hostname_failed hostname
    pure (content ++ 10 ∷ codes "127.0.0.1 " ++ name ++ 10 ∷ codes "::1 " ++ name ++ 10 ∷ [])

  unfoldable pub write : Bytes → Bytes → Act Call Error (Unit {0})
  write path content = done (call sys.kernel (write_failed path) (write_file path content))

  unfoldable pub write_hosts : Bytes → Act Call Error (Unit {0})
  unfolding generate_etc_hosts write
  write_hosts dir = generate_etc_hosts >>= write (sys.join dir (codes "hosts"))

  -- `common.Execs`: the commands up to the first that fails.
  unfoldable pub execs : List (List Bytes) → List (List Bytes) → Act Call Error (Unit {0})
  execs all [] = pure tt
  execs all (cmd ∷ cmds) = call sys.kernel (exec_failed all) (exec cmd) >> execs all cmds

  unfoldable pub run_all : List (List Bytes) → Act Call Error (Unit {0})
  unfolding execs
  run_all cmds = execs cmds cmds

  unfoldable pub activate_loopback : Act Call Error (Unit {0})
  activate_loopback =
      run_all ((codes "ip" ∷ codes "link" ∷ codes "set" ∷ codes "lo" ∷ codes "up" ∷ []) ∷ [])

  unfoldable pub activate_dev : Bytes → Bytes → ℤ → Bytes → ℤ → Act Call Error (Unit {0})
  activate_dev dev ip netmask gateway mtu = run_all (
      (codes "ip" ∷ codes "link" ∷ codes "set" ∷ dev ∷ codes "up" ∷ [])
      ∷ (codes "ip" ∷ codes "link" ∷ codes "set" ∷ codes "dev" ∷ dev ∷ codes "mtu" ∷ itoa mtu ∷ [])
      ∷ (codes "ip"
          ∷ codes "addr"
          ∷ codes "add"
          ∷ (ip ++ b'/' ∷ itoa netmask)
          ∷ codes "dev"
          ∷ dev
          ∷ [])
      ∷ (codes "ip"
          ∷ codes "route"
          ∷ codes "add"
          ∷ codes "default"
          ∷ codes "via"
          ∷ gateway
          ∷ codes "dev"
          ∷ dev
          ∷ [])
      ∷ [])

  unfoldable pub bind_file : Bytes → Bytes → Act Call Error (Unit {0})
  bind_file source target =
      done (call sys.kernel (bind_failed target) (mount source target [] (bind ∷ [])))

  -- The loop over the copied-up links.
  unfoldable pub replace_files : List Bytes → Act Call Error (Unit {0})
  unfolding write
  replace_files [] = pure tt
  replace_files (f ∷ fs) = do
    call sys.kernel (remove_failed f) (remove_all f)
    write f []
    replace_files fs

  -- `ns.WithNetNSPath(path, fn)`.
  unfoldable pub with_netns : Bytes → Act Call Error (Unit {0}) → Act Call Error (Unit {0})
  with_netns path fn =
      call sys.kernel (netns_failed path) (enter_netns path) >> deferring (leave_netns path) fn

  module _ {V : Type 0} (driver : Driver V) where
    unfoldable pub configure : InitNetwork V → Bytes → Act Call Error (Bytes × InitNetwork V)
    configure msg netns log =
        let (r, log') = driver.configure msg netns (configure_network netns ∷ log) in
        (wrap_err configure_failed r, log')

    unfoldable pub activate : Bytes → InitNetwork V → Act Call Error (Unit {0})
    unfolding activate_dev
    activate dev msg =
        when (not driver.configures_interface)
          (activate_dev dev msg.ip msg.netmask msg.gateway msg.mtu)

    unfoldable pub bind_files : Bytes → Bool → Act Call Error (Unit {0})
    unfolding replace_files bind_file
    bind_files dir etc_was_copied = do
      when etc_was_copied (replace_files (codes "/etc/resolv.conf" ∷ codes "/etc/hosts" ∷ []))
      bind_file (sys.join dir (codes "resolv.conf")) (codes "/etc/resolv.conf")
      bind_file (sys.join dir (codes "hosts")) (codes "/etc/hosts")

    -- What follows on the driver's configuration.
    unfoldable pub apply_attached : Bytes → Bool → Bytes × InitNetwork V → Act Call Error (Unit {0})
    unfolding write activate bind_files
    apply_attached dir etc_was_copied (dev, msg) = do
      write (sys.join dir (codes "resolv.conf")) (generate_resolv_conf msg.dns)
      activate dev msg
      bind_files dir etc_was_copied

    unfoldable pub attached_net : Bytes → InitNetwork V → Bool → Act Call Error (Unit {0})
    unfolding activate_loopback configure apply_attached
    attached_net dir msg etc_was_copied =
        activate_loopback >> (configure msg [] >>= apply_attached dir etc_was_copied)

    unfoldable pub apply_detached :
        Bytes → Bytes → Bytes × InitNetwork V → Act Call Error (Unit {0})
    unfolding write activate with_netns
    apply_detached dir netns (dev, msg) =
        write (sys.join dir (codes "resolv.conf")) (generate_resolv_conf msg.dns)
        >> with_netns netns (activate dev msg)

    unfoldable pub detached_net : Bytes → InitNetwork V → Bytes → Act Call Error (Unit {0})
    unfolding activate_loopback configure apply_detached with_netns
    detached_net dir msg netns =
        with_netns netns activate_loopback >> (configure msg netns >>= apply_detached dir netns)

    unfoldable pub choose_net : Bytes → InitNetwork V → Bool → Bytes → Act Call Error (Unit {0})
    unfolding attached_net detached_net
    choose_net dir msg etc_was_copied netns =
        if is_empty netns then attached_net dir msg etc_was_copied else detached_net dir msg netns

  -- `setupNet`.
  unfoldable pub set_up_net :
      {V : Type 0}
      → Bytes
      → InitNetwork V
      → Bool
      → Option (Driver V)
      → Bytes
      → Act Call Error (Unit {0})
  unfolding choose_net write_hosts
  set_up_net dir msg etc_was_copied none netns = pure tt
  set_up_net dir msg etc_was_copied (some driver) netns =
      write_hosts dir >> choose_net driver dir msg etc_was_copied netns

-- What each command keeps, a sequence of commands keeps.
module _ (sys : System) (P : List Call → Type 0)
    (step : (cmd : List Bytes) (log : List Call) → P log → P (exec cmd ∷ log)) where
  execs-Keeps : (cs cmds : List (List Bytes)) → Keeps P (execs sys cs cmds)
  unfolding execs
  execs-Keeps cs [] log h = h
  execs-Keeps cs (cmd ∷ cmds) log h =
      bind-Keeps P (call sys.kernel (exec_failed cs) (exec cmd)) (λ _. execs sys cs cmds) (step cmd)
        (λ _. execs-Keeps cs cmds) log h

  pub run_all-Keeps : (cmds : List (List Bytes)) → Keeps P (run_all sys cmds)
  unfolding run_all
  run_all-Keeps cmds = execs-Keeps cmds cmds

  pub loopback-Keeps : Keeps P (activate_loopback sys)
  unfolding activate_loopback
  loopback-Keeps = run_all-Keeps _

  pub activate-Keeps :
      {V : Type 0} (driver : Driver V) (dev : Bytes) (msg : InitNetwork V)
      → Keeps P (activate sys driver dev msg)
  unfolding activate activate_dev
  activate-Keeps driver dev msg log h = elim (Bool-cases driver.configures_interface) [
    | inl t ↦ rw t h
    | inr f ↦ rw f (run_all-Keeps _ log h)
  ]
