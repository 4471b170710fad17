-- ===== src/Setup/Attached.antt =====
-- What the child reads in /etc/resolv.conf and /etc/hosts after setupNet, without a detached network
-- namespace.
use rootlesskit.Base.{
  All, ◌≡◌, refl, ap, Bool, true, false, some, List, [], ◌∷◌, arith, Result, ok, wrap_err,
}
use rootlesskit.Text.{Bytes, codes, str_eq}
use rootlesskit.Messages.{InitNetwork}
use rootlesskit.Calls.{Act, ◌>>=◌, ◌>>◌, Keeps, kept, act-bind-ok, when}
use rootlesskit.Setup.{Call, configure_network}
use rootlesskit.Setup.Net.{
  Error, System, Driver, generate_etc_hosts, write_hosts, write, activate_loopback, activate,
  configure, replace_files, bind_file, bind_files, apply_attached, attached_net, choose_net,
  set_up_net, generate_resolv_conf, loopback-Keeps, activate-Keeps, configure_failed,
}
use rootlesskit.Setup.Files.{
  Has, exec-Has, configure-Has, write-Has, replace-Has, write-there, bind-Has, bind-bound,
  bind-bound_other, bound, seen, read_bound,
}

module _ (sys : System) (dir : Bytes) where
  abbrev pub rc : Bytes
  rc = sys.join dir (codes "resolv.conf")

  abbrev pub hs : Bytes
  hs = sys.join dir (codes "hosts")

  -- The files of the state directory are two, and not those of /etc.
  abbrev pub AreApart : Type 0
  AreApart =
      (str_eq rc hs ≡ false)
      × All (λ f. (str_eq f rc ≡ false) × (str_eq f hs ≡ false))
          (codes "/etc/resolv.conf" ∷ codes "/etc/hosts" ∷ [])

  -- Both files as they are to be seen.
  abbrev pub Both : Bytes → Bytes → List Call → Type 0
  Both r h log =
      (seen sys.kernel (codes "/etc/resolv.conf") log ≡ some r)
      × (seen sys.kernel (codes "/etc/hosts") log ≡ some h)

  other : str_eq (codes "/etc/hosts") (codes "/etc/resolv.conf") ≡ false
  unfolding str_eq
  other = refl

  bind_two :
      (r h : Bytes) (log log' : List Call) {a : Unit {0}}
      → Has sys rc r log
      → Has sys hs h log
      → (bind_file sys rc (codes "/etc/resolv.conf") >> bind_file sys hs (codes "/etc/hosts")) log
        ≡ (ok a, log')
      → Both r h log'
  unfolding seen read_bound
  bind_two r h log log' has_r has_h e =
      let b1 = bind_file sys rc (codes "/etc/resolv.conf") in
      let b2 = bind_file sys hs (codes "/etc/hosts") in
      let (u, mid, e1, e2) = act-bind-ok b1 (λ _. b2) log e in
      let r1 = kept (Has sys rc r) b1 (bind-Has sys rc r rc (codes "/etc/resolv.conf")) e1 has_r in
      let r2 = kept (Has sys rc r) b2 (bind-Has sys rc r hs (codes "/etc/hosts")) e2 r1 in
      let h1 = kept (Has sys hs h) b1 (bind-Has sys hs h rc (codes "/etc/resolv.conf")) e1 has_h in
      let h2 = kept (Has sys hs h) b2 (bind-Has sys hs h hs (codes "/etc/hosts")) e2 h1 in
      let o1 = bind-bound sys rc (codes "/etc/resolv.conf") log mid e1 in
      let o2 =
        kept (λ l. bound sys.kernel (codes "/etc/resolv.conf") l ≡ some rc) b2
          (bind-bound_other sys hs (codes "/etc/hosts") (codes "/etc/resolv.conf") rc other) e2
          o1 in
      let o3 = bind-bound sys hs (codes "/etc/hosts") mid log' e2 in (rw o2 r2, rw o3 h2)

  bind_files-Both :
      {V : Type 0} (driver : Driver V) (r h : Bytes) (etc : Bool) (log log' : List Call)
      {a : Unit {0}}
      → AreApart
      → Has sys rc r log
      → Has sys hs h log
      → bind_files sys driver dir etc log ≡ (ok a, log')
      → Both r h log'
  unfolding bind_files
  bind_files-Both driver r h etc log log' apart has_r has_h e =
      let files = codes "/etc/resolv.conf" ∷ codes "/etc/hosts" ∷ [] in
      let first = when etc (replace_files sys files) in
      let rest =
        bind_file sys rc (codes "/etc/resolv.conf") >> bind_file sys hs (codes "/etc/hosts") in
      let (u, mid, e1, e2) = act-bind-ok first (λ _. rest) log e in
      bind_two r h mid log'
        (kept (Has sys rc r) first
          (when-Has rc r etc (replace_files sys files)
            (replace-Has sys rc r files (apart.1.0.0, (apart.1.1.0.0, tt))))
          e1 has_r)
        (kept (Has sys hs h) first
          (when-Has hs h etc (replace_files sys files)
            (replace-Has sys hs h files (apart.1.0.1, (apart.1.1.0.1, tt))))
          e1 has_h)
        e2
    where
      when-Has :
          (path text : Bytes) (b : Bool) (m : Act Call Error (Unit {0}))
          → Keeps (Has sys path text) m
          → Keeps (Has sys path text) (when b m)
      when-Has path text true m keeps = keeps
      when-Has path text false m keeps = λ log h. h

  apply_attached-Both :
      {V : Type 0} (driver : Driver V) (dev : Bytes) (msg : InitNetwork V) (h : Bytes) (etc : Bool)
      (log log' : List Call) {a : Unit {0}}
      → AreApart
      → Has sys hs h log
      → apply_attached sys driver dir etc (dev, msg) log ≡ (ok a, log')
      → Both (generate_resolv_conf msg.dns) h log'
  unfolding apply_attached
  apply_attached-Both driver dev msg h etc log log' apart has e =
      let text = generate_resolv_conf msg.dns in
      let up = activate sys driver dev msg in
      let last = bind_files sys driver dir etc in
      let (_, l1, e1, f1) = act-bind-ok (write sys rc text) (λ _. up >> last) log e in
      let (_, l2, e2, f2) = act-bind-ok up (λ _. last) l1 f1 in
      let has_r = write-there sys rc text log l1 e1 in
      let has_h =
        kept (Has sys hs h) (write sys rc text) (write-Has sys hs h rc text apart.0) e1 has in
      let up-Has = λ (path t : Bytes).
        activate-Keeps sys (Has sys path t) (exec-Has sys path t) driver dev msg in
      bind_files-Both driver text h etc l2 log' apart
        (kept (Has sys rc text) up (up-Has rc text) e2 has_r)
        (kept (Has sys hs h) up (up-Has hs h) e2 has_h) f2

-- Where setupNet succeeds without a detached namespace, the driver has been asked to configure the
-- network, and the child then sees in /etc/resolv.conf a line for each name server of the message
-- that the driver gave back, and in /etc/hosts what generateEtcHosts made; whether /etc was copied
-- up or not. It is a premise that the two files of the state directory are different files, and not
-- those of /etc, and that the driver leaves the file of the hosts as it is.
pub set_up_net-files :
    {V : Type 0} (sys : System) (dir : Bytes) (msg : InitNetwork V) (etc : Bool) (driver : Driver V)
    (log log' : List Call) {a : Unit {0}}
    → AreApart sys dir
    → ((text : Bytes) → Keeps (Has sys (hs sys dir) text) (driver.configure msg []))
    → set_up_net sys dir msg etc (some driver) [] log ≡ (ok a, log')
    → (start : List Call) × (hosts : Bytes) × (dev : Bytes) × (msg' : InitNetwork V)
      × ((generate_etc_hosts sys log).0 ≡ ok hosts)
      × ((driver.configure msg [] start).0 ≡ ok (dev, msg'))
      × Both sys dir (generate_resolv_conf msg'.dns) hosts log'
unfolding set_up_net choose_net attached_net write_hosts configure
set_up_net-files sys dir msg etc driver log log' apart own e =
    let hosts_path = sys.join dir (codes "hosts") in
    let net = attached_net sys driver dir msg etc in
    let lo = activate_loopback sys in
    let conf = configure sys driver msg [] in
    let app = apply_attached sys driver dir etc in
    let (_, l1, e1, f1) = act-bind-ok (write_hosts sys dir) (λ _. net) log e in
    let (hosts, l0, e0, w) = act-bind-ok (generate_etc_hosts sys) (write sys hosts_path) log e1 in
    let (_, l2, e2, f2) = act-bind-ok lo (λ _. conf >>= app) l1 f1 in
    let ((dev, msg'), l3, e3, f3) = act-bind-ok conf app l2 f2 in
    let has = write-there sys hosts_path hosts l0 l1 w in
    let has2 =
      kept (Has sys hosts_path hosts) lo (loopback-Keeps sys _ (exec-Has sys hosts_path hosts)) e2
        has in
    let has3 =
      kept (Has sys hosts_path hosts) conf
        (configure-Has sys hosts_path hosts driver msg [] (own hosts)) e3 has2 in
    (
      configure_network [] ∷ l2,
      hosts,
      dev,
      msg',
      ap (λ o. o.0) e0,
      unwrapped (driver.configure msg [] (configure_network [] ∷ l2)).0 (ap (λ o. o.0) e3),
      apply_attached-Both sys dir driver dev msg' hosts etc l3 log' apart has3 f3,
    )
  where
    unwrapped :
        {A : Type 0} {x : A} (r : Result Bytes A)
        → wrap_err {E = Bytes} {F = Error} configure_failed r ≡ ok x
        → r ≡ ok x
    unwrapped r h = ground arith
