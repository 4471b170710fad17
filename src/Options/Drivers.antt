-- ===== src/Options/Drivers.antt =====
-- Which drivers the parent and the child get from the same command line.
use rootlesskit.Base.{
  Option-cases, pos, ltb_ℤ, ◌≡◌, refl, sym, ◌∙◌, subst, inl, inr, Bool, true, false, ◌||◌, Option,
  none, some, List, arith, Result, ok, ◌>>=◌, ◌>>◌, reject_if, or_fail, Result-cases, bind-eq-ok,
}
use rootlesskit.Text.{Bytes, codes, str_eq, str_eq_iff}
use rootlesskit.Text.Search.{contains}
use rootlesskit.Net.{Net}
use rootlesskit.Port.{Spec}
use rootlesskit.Port.Parse.{Token}
use rootlesskit.Options.{
  Flags, NetworkMode, PortMode, IpNet, NetworkDriver, PortDriver, network_mode, port_mode, host,
  none_mode, pasta, slirp4netns, vpnkit, lxc_user_nic, gvisor_tap_vsock, no_port, implicit,
  slirp4netns_port, builtin, gvisor_tap_vsock_port, none_driver, pasta_driver, slirp4netns_driver,
  vpnkit_driver, lxc_user_nic_driver, gvisor_driver, slirp4netns_ports, builtin_ports, gvisor_ports,
}
use rootlesskit.Slirp
use rootlesskit.Options.Parent.{
  System, Opt, Error, choose_drivers, create_parent_opt, publish_ports, network_for, port_for,
  parse_cidr, choose_dir, check_evacuate, slirp4netns_network, gvisor_net, api_socket_path, sandbox,
  seccomp, bad_mtu, bad_ifname, unknown_network, unknown_port_driver,
}
use rootlesskit.Options.Child
use rootlesskit.Options.Child.{
  create_child_opt, child_network, child_port, choose_reaper, check_copy_up,
}

-- What a success of the parent's options rests on.
pub record Chosen (net : Net) (scan : Bytes → List Token) (sys : System) (f : Flags) (o : Opt)
    : Type 0 where
  pub ipnet : Option IpNet
  pub mode : NetworkMode
  pub port : PortMode
  pub mode_known : network_mode f.net ≡ some mode
  pub port_known : port_mode f.port_driver ≡ some port
  pub network_chosen : network_for sys f o.state_dir ipnet mode ≡ ok o.network_driver
  pub port_chosen : port_for sys f o.state_dir o.network_driver port ≡ ok o.port_driver
  pub published : publish_ports net scan f.publish ≡ ok o.publish_ports

or_fail-ok {ℓ} :
    {E : Type 0} {A : Type ℓ} (m : Option A) (e : E) (a : A) → or_fail m e ≡ ok a → m ≡ some a
or_fail-ok none e a h = absurd (ground arith)
or_fail-ok (some b) e a h = ground arith

module _ (net : Net) (scan : Bytes → List Token) (sys : System) (f : Flags) where
  abbrev made : Bytes → Option NetworkDriver → Option PortDriver → List Spec → Opt
  made dir nd pd specs = record {
    create_pidns = f.pidns;
    create_cgroupns = f.cgroupns;
    create_utsns = f.utsns;
    create_ipcns = f.ipcns;
    detach_netns = f.detach_netns;
    propagation = f.propagation;
    evacuate_cgroup2 = f.evacuate_cgroup2;
    subid_source = f.subid_source;
    state_dir = dir;
    network_driver = nd;
    port_driver = pd;
    publish_ports = specs;
  }

  abbrev with_ports : Bytes → Option NetworkDriver → Option PortDriver → Result Error Opt
  with_ports dir nd pd = publish_ports net scan f.publish >>= λ specs. ok (made dir nd pd specs)

  abbrev with_port_mode : Bytes → Option NetworkDriver → PortMode → Result Error Opt
  with_port_mode dir nd port = port_for sys f dir nd port >>= with_ports dir nd

  abbrev with_network : Bytes → Option NetworkDriver → Result Error Opt
  with_network dir nd =
      or_fail (port_mode f.port_driver) unknown_port_driver >>= with_port_mode dir nd

  abbrev with_mode : Bytes → Option IpNet → NetworkMode → Result Error Opt
  with_mode dir ipnet mode = network_for sys f dir ipnet mode >>= with_network dir

  choose_drivers-Chosen :
      (dir : Bytes) (ipnet : Option IpNet) {o : Opt}
      → choose_drivers net scan sys f dir ipnet ≡ ok o
      → Chosen net scan sys f o
  unfolding choose_drivers
  choose_drivers-Chosen dir ipnet {o} h =
      let (mode, e1, h1) =
        bind-eq-ok (or_fail (network_mode f.net) unknown_network) (with_mode dir ipnet) h in
      let (nd, e2, h2) = bind-eq-ok (network_for sys f dir ipnet mode) (with_network dir) h1 in
      let (port, e3, h3) =
        bind-eq-ok (or_fail (port_mode f.port_driver) unknown_port_driver) (with_port_mode dir nd)
          h2 in
      let (pd, e4, h4) = bind-eq-ok (port_for sys f dir nd port) (with_ports dir nd) h3 in
      let (specs, e5, h5) =
        bind-eq-ok (publish_ports net scan f.publish) (λ specs. ok (made dir nd pd specs)) h4 in
      let same : made dir nd pd specs ≡ o = ground arith in
      subst (Chosen net scan sys f) same (record {
        ipnet = ipnet;
        mode = mode;
        port = port;
        mode_known = or_fail-ok (network_mode f.net) unknown_network mode e1;
        port_known = or_fail-ok (port_mode f.port_driver) unknown_port_driver port e3;
        network_chosen = e2;
        port_chosen = e4;
        published = e5;
      })

  abbrev from_ifname : Bytes → Option IpNet → Result Error Opt
  from_ifname dir ipnet =
      reject_if (contains f.ifname b'/') bad_ifname >> choose_drivers net scan sys f dir ipnet

  abbrev from_mtu : Bytes → Result Error Opt
  from_mtu dir =
      reject_if (ltb_ℤ f.mtu (pos 0) || ltb_ℤ (pos 65521) f.mtu) bad_mtu
      >> (parse_cidr sys f.cidr >>= from_ifname dir)

  pub create_parent_opt-Chosen :
      (o : Opt) → create_parent_opt net scan sys f ≡ ok o → Chosen net scan sys f o
  unfolding create_parent_opt
  create_parent_opt-Chosen o h =
      let (u, e1, h1) =
        bind-eq-ok (check_evacuate f) (λ _. choose_dir sys f.state_dir >>= from_mtu) h in
      let (dir, e2, h2) = bind-eq-ok (choose_dir sys f.state_dir) from_mtu h1 in
      let (v, e3, h3) =
        bind-eq-ok (reject_if (ltb_ℤ f.mtu (pos 0) || ltb_ℤ (pos 65521) f.mtu) bad_mtu)
          (λ _. parse_cidr sys f.cidr >>= from_ifname dir) h2 in
      let (ipnet, e4, h4) = bind-eq-ok (parse_cidr sys f.cidr) (from_ifname dir) h3 in
      let (w, e5, h5) =
        bind-eq-ok (reject_if (contains f.ifname b'/') bad_ifname)
          (λ _. choose_drivers net scan sys f dir ipnet) h4 in
      choose_drivers-Chosen dir ipnet h5

-- The combinations of network and port driver.
abbrev pub is_supported : NetworkMode → PortMode → Bool
is_supported m no_port = true
is_supported pasta implicit = true
is_supported slirp4netns slirp4netns_port = true
is_supported host builtin = false
is_supported pasta builtin = false
is_supported m builtin = true
is_supported host gvisor_tap_vsock_port = false
is_supported none_mode gvisor_tap_vsock_port = false
is_supported pasta gvisor_tap_vsock_port = false
is_supported m gvisor_tap_vsock_port = true
is_supported m p = false

-- The mode that a driver of the parent serves; the driver of "none" serves no child.
abbrev pub network_served : Option NetworkDriver → Option NetworkMode
network_served none = none
network_served (some none_driver) = none
network_served (some (pasta_driver b m n i l v p)) = some pasta
network_served (some (slirp4netns_driver b m n i l a s c v)) = some slirp4netns
network_served (some (vpnkit_driver b m i l)) = some vpnkit
network_served (some (lxc_user_nic_driver b m r i)) = some lxc_user_nic
network_served (some (gvisor_driver m n i l v)) = some gvisor_tap_vsock

abbrev pub port_served : Option PortDriver → Option PortMode
port_served none = none
port_served (some (slirp4netns_ports d)) = some slirp4netns_port
port_served (some (builtin_ports dir t)) = some builtin
port_served (some (gvisor_ports dir)) = some gvisor_tap_vsock_port

network_mode-pasta : (s : Bytes) → str_eq s (codes "pasta") ≡ true → network_mode s ≡ some pasta
unfolding network_mode
network_mode-pasta s h = rw ((str_eq_iff s (codes "pasta")).0 h) refl

network_mode-slirp4netns :
    (s : Bytes) → str_eq s (codes "slirp4netns") ≡ true → network_mode s ≡ some slirp4netns
unfolding network_mode
network_mode-slirp4netns s h = rw ((str_eq_iff s (codes "slirp4netns")).0 h) refl

slirp4netns_network-served :
    (sys : System) (f : Flags) (dir : Bytes) (ipnet : Option IpNet) (nd : Option NetworkDriver)
    → slirp4netns_network sys f dir ipnet ≡ ok nd
    → network_served nd ≡ some slirp4netns
unfolding slirp4netns_network
slirp4netns_network-served sys f dir ipnet nd h =
    elim (Option-cases (sys.detect_features f.slirp4netns_binary)) [
      | inl e ↦ ground arith
      | inr (feat, e) ↦ elim (Result-cases (sandbox f feat)) [
        | inl (s, e2) ↦ elim (Result-cases (seccomp f feat)) [
          | inl (c, e3) ↦ ground arith
          | inr (x, e3) ↦ ground arith
        ]
        | inr (x, e2) ↦ ground arith
      ]
    ]

network_for-served :
    (sys : System) (f : Flags) (dir : Bytes) (ipnet : Option IpNet) (mode : NetworkMode)
    (nd : Option NetworkDriver)
    → network_for sys f dir ipnet mode ≡ ok nd
    → network_served nd ≡ child_network mode
unfolding network_for
network_for-served sys f dir ipnet host nd h = ground arith
network_for-served sys f dir ipnet none_mode nd h = ground arith
network_for-served sys f dir ipnet pasta nd h = ground arith
network_for-served sys f dir ipnet slirp4netns nd h =
    slirp4netns_network-served sys f dir ipnet nd h
network_for-served sys f dir ipnet vpnkit nd h = ground arith
network_for-served sys f dir ipnet lxc_user_nic nd h = ground arith
network_for-served sys f dir ipnet gvisor_tap_vsock nd h =
    ground (arith, Result-cases (gvisor_net sys f))

port_for-served :
    (sys : System) (f : Flags) (dir : Bytes) (nd : Option NetworkDriver) (port : PortMode)
    (pd : Option PortDriver)
    → port_for sys f dir nd port ≡ ok pd
    → port_served pd ≡ child_port port
unfolding port_for
port_for-served sys f dir nd no_port pd h = ground arith
port_for-served sys f dir nd implicit pd h = ground arith
port_for-served sys f dir nd slirp4netns_port pd h =
    ground (arith, Result-cases (Slirp.new_parent_driver (api_socket_path sys f dir)))
port_for-served sys f dir nd builtin pd h = ground arith
port_for-served sys f dir nd gvisor_tap_vsock_port pd h = ground arith

create_child_opt-drivers :
    (f : Flags) (c : Child.Opt) (mode : NetworkMode) (port : PortMode)
    → network_mode f.net ≡ some mode
    → port_mode f.port_driver ≡ some port
    → create_child_opt f ≡ ok c
    → (c.network_driver ≡ child_network mode) × (c.port_driver ≡ child_port port)
unfolding create_child_opt
create_child_opt-drivers f c mode port e1 e2 h = elim (Result-cases (choose_reaper f)) [
  | inl (r, e3) ↦ elim (Result-cases (check_copy_up f)) [
    | inl (u, e4) ↦ (ground arith, ground arith)
    | inr (x, e4) ↦ absurd (ground arith)
  ]
  | inr (x, e3) ↦ absurd (ground arith)
]

network_for-host :
    (sys : System) (f : Flags) (dir : Bytes) (ipnet : Option IpNet) (nd : Option NetworkDriver)
    → network_for sys f dir ipnet host ≡ ok nd
    → nd ≡ none
unfolding network_for
network_for-host sys f dir ipnet nd h = ground arith

network_for-none :
    (sys : System) (f : Flags) (dir : Bytes) (ipnet : Option IpNet) (p : PortMode)
    (nd : Option NetworkDriver)
    → port_mode f.port_driver ≡ some p
    → network_for sys f dir ipnet none_mode ≡ ok nd
    → is_supported none_mode p ≡ true
unfolding network_for
network_for-none sys f dir ipnet no_port nd e h = refl
network_for-none sys f dir ipnet builtin nd e h = refl
network_for-none sys f dir ipnet implicit nd e h = absurd (ground arith)
network_for-none sys f dir ipnet slirp4netns_port nd e h = absurd (ground arith)
network_for-none sys f dir ipnet gvisor_tap_vsock_port nd e h = absurd (ground arith)

network_for-pasta :
    (sys : System) (f : Flags) (dir : Bytes) (ipnet : Option IpNet) (p : PortMode)
    (nd : Option NetworkDriver)
    → port_mode f.port_driver ≡ some p
    → network_for sys f dir ipnet pasta ≡ ok nd
    → is_supported pasta p ≡ true
unfolding network_for
network_for-pasta sys f dir ipnet no_port nd e h = refl
network_for-pasta sys f dir ipnet implicit nd e h = refl
network_for-pasta sys f dir ipnet builtin nd e h = absurd (ground arith)
network_for-pasta sys f dir ipnet slirp4netns_port nd e h = absurd (ground arith)
network_for-pasta sys f dir ipnet gvisor_tap_vsock_port nd e h = absurd (ground arith)

-- Each switch refuses what the table leaves out.
pair_supported :
    (sys : System) (f : Flags) (dir : Bytes) (ipnet : Option IpNet) (m : NetworkMode) (p : PortMode)
    (nd : Option NetworkDriver) (pd : Option PortDriver)
    → network_mode f.net ≡ some m
    → port_mode f.port_driver ≡ some p
    → network_for sys f dir ipnet m ≡ ok nd
    → port_for sys f dir nd p ≡ ok pd
    → is_supported m p ≡ true
unfolding port_for
pair_supported sys f dir ipnet m no_port nd pd e1 e2 h k = refl
pair_supported sys f dir ipnet m implicit nd pd e1 e2 h k =
    let same : m ≡ pasta = ground (arith, network_mode-pasta f.net) in rw same refl
pair_supported sys f dir ipnet m slirp4netns_port nd pd e1 e2 h k =
    let same : m ≡ slirp4netns = ground (arith, network_mode-slirp4netns f.net) in rw same refl
pair_supported sys f dir ipnet host builtin nd pd e1 e2 h k =
    absurd (ground (arith, network_for-host sys f dir ipnet nd))
pair_supported sys f dir ipnet host gvisor_tap_vsock_port nd pd e1 e2 h k =
    absurd (ground (arith, network_for-host sys f dir ipnet nd))
pair_supported sys f dir ipnet none_mode p nd pd e1 e2 h k =
    network_for-none sys f dir ipnet p nd e2 h
pair_supported sys f dir ipnet pasta p nd pd e1 e2 h k = network_for-pasta sys f dir ipnet p nd e2 h
pair_supported sys f dir ipnet slirp4netns builtin nd pd e1 e2 h k = refl
pair_supported sys f dir ipnet vpnkit builtin nd pd e1 e2 h k = refl
pair_supported sys f dir ipnet lxc_user_nic builtin nd pd e1 e2 h k = refl
pair_supported sys f dir ipnet gvisor_tap_vsock builtin nd pd e1 e2 h k = refl
pair_supported sys f dir ipnet slirp4netns gvisor_tap_vsock_port nd pd e1 e2 h k = refl
pair_supported sys f dir ipnet vpnkit gvisor_tap_vsock_port nd pd e1 e2 h k = refl
pair_supported sys f dir ipnet lxc_user_nic gvisor_tap_vsock_port nd pd e1 e2 h k = refl
pair_supported sys f dir ipnet gvisor_tap_vsock gvisor_tap_vsock_port nd pd e1 e2 h k = refl

-- The parent's and the child's options, made of the same flags: where both are accepted, the child
-- has the port driver that serves the parent's, or neither has one, and likewise for the network,
-- where the parent's driver for "none" has no counterpart.
pub drivers_agree :
    (net : Net) (scan : Bytes → List Token) (sys : System) (f : Flags) (o : Opt) (c : Child.Opt)
    → create_parent_opt net scan sys f ≡ ok o
    → create_child_opt f ≡ ok c
    → (c.port_driver ≡ port_served o.port_driver)
      × (c.network_driver ≡ network_served o.network_driver)
drivers_agree net scan sys f o c h k =
    let p = create_parent_opt-Chosen net scan sys f o h in
    let (c_net, c_port) = create_child_opt-drivers f c p.mode p.port p.mode_known p.port_known k in
    (
      c_port
          ∙ sym (
              port_for-served sys f o.state_dir o.network_driver p.port o.port_driver
                p.port_chosen),
      c_net
          ∙ sym (
              network_for-served sys f o.state_dir p.ipnet p.mode o.network_driver
                p.network_chosen),
    )

-- Options of the parent are accepted only for known modes of network and ports that go together:
-- implicit ports with pasta, those of slirp4netns with its network, the builtin driver with all
-- networks but "host" and pasta, gvisor-tap-vsock with all but "host", "none" and pasta, and no
-- port driver with all.
pub combination_supported :
    (net : Net) (scan : Bytes → List Token) (sys : System) (f : Flags) (o : Opt)
    → create_parent_opt net scan sys f ≡ ok o
    → (m : NetworkMode) × (p : PortMode) × (network_mode f.net ≡ some m)
      × (port_mode f.port_driver ≡ some p)
      × (is_supported m p ≡ true)
combination_supported net scan sys f o h =
    let p = create_parent_opt-Chosen net scan sys f o h in
    (
      p.mode,
      p.port,
      p.mode_known,
      p.port_known,
      pair_supported sys f o.state_dir p.ipnet p.mode p.port o.network_driver o.port_driver
          p.mode_known p.port_known p.network_chosen p.port_chosen,
    )
