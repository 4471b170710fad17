-- ===== src/Network/Supported.antt =====
-- The options that slirp4netns is started with are those that its help text has.
use rootlesskit.Base.{
  All, All-append, Option-cases, pos, ltb_ℤ, ◌≡◌, refl, subst, ◌⊎◌, inl, inr, Bool, true, false,
  not, ◌&&◌, Option, none, some, ◌++◌, arith, ok, ◌>>◌, bind-eq-ok, reject_if-ok,
}
use rootlesskit.Text.{Bytes, codes, is_empty}
use rootlesskit.Text.Search.{has_infix}
use rootlesskit.Options.{IpNet}
use rootlesskit.Network.{System, empty_binary, negative_mtu, default_mtu, default_ifname}
use rootlesskit.Network.Features.{
  Machine, Config, Features, detect_features, features_in, check_features, new_parent_driver,
  is_given,
}
use rootlesskit.Network.Slirp4netns.{CliOption, options, cidr_option, given}

-- The two options that every version in question has, or one that is in the text.
abbrev pub IsSupported : Bytes → CliOption → Type 0
IsSupported help o = (o.0 ≡ codes "--mtu") ⊎ ((o.0 ≡ codes "-r") ⊎ (has_infix help o.0 ≡ true))

-- Where an option is asked for, the text has it.
abbrev Implies : Bool → Bytes → Bytes → Type 0
Implies b help name = b ≡ true → has_infix help (codes "--" ++ name) ≡ true

-- What the checks of the constructor have seen of a driver.
record Checked (help : Bytes) (d : Config) : Type 0 where
  loopback : Implies d.disable_host_loopback help (codes "disable-host-loopback")
  cidr : Implies (is_given d.ipnet) help (codes "cidr")
  socket : Implies (not (is_empty d.api_socket_path)) help (codes "api-socket")
  sandbox : Implies d.enable_sandbox help (codes "enable-sandbox")
  seccomp : Implies d.enable_seccomp help (codes "enable-seccomp")
  ipv6 : Implies d.enable_ipv6 help (codes "enable-ipv6")

detect_features-ok :
    (m : Machine) (binary : Bytes) (f : Features)
    → detect_features m binary ≡ ok f
    → (help : Bytes) × (m.help binary ≡ some help) × (f ≡ features_in m help)
unfolding detect_features
detect_features-ok m binary f h = elim (Option-cases (m.help binary)) [
  | inl e ↦ absurd (ground (arith, e))
  | inr (help, e) ↦ (help, e, ground (arith, e))
]

implied : (b has : Bool) → (b && not has) ≡ false → b ≡ true → has ≡ true
implied b has h e = ground arith

check_features-Checked :
    (help : Bytes) (m : Machine) (c : Config) {a : Unit {0}}
    → check_features c (features_in m help) ≡ ok a
    → Checked help c
unfolding check_features features_in
check_features-Checked help m c h = record {
  loopback = λ e. ground (arith, h, e);
  cidr = λ e. ground (arith, h, e);
  socket = λ e. ground (arith, h, e);
  sandbox = λ e. ground (arith, h, e);
  seccomp = λ e. ground (arith, h, e);
  ipv6 = λ e. ground (arith, h, e);
}

given-All :
    (help name : Bytes) (b : Bool) (value : Option Bytes)
    → Implies b help name
    → All (IsSupported help) (given b (codes "--" ++ name, value))
given-All help name true value h = (inr (inr (h refl)), tt)
given-All help name false value h = tt

cidr-All :
    (help : Bytes) (print : IpNet → Bytes) (o : Option IpNet)
    → Implies (is_given o) help (codes "cidr")
    → All (IsSupported help) (cidr_option print o)
unfolding cidr_option
cidr-All help print none h = tt
cidr-All help print (some n) h = (inr (inr (h refl)), tt)

options-All :
    (sys : System) (help : Bytes) (d : Config)
    → Checked help d
    → All (IsSupported help) (options sys d)
unfolding options
options-All sys help d c =
    let P = IsSupported help in
    (
      inl refl,
      (
        inr (inl refl),
        All-append P _ _ (given-All help _ _ none c.loopback) (
            All-append P _ _ (cidr-All help sys.net_string d.ipnet c.cidr) (
              All-append P _ _ (given-All help _ _ (some d.api_socket_path) c.socket) (
                All-append P _ _ (given-All help _ _ none c.sandbox) (
                  All-append P _ _ (given-All help _ _ none c.seccomp)
                    (given-All help _ _ none c.ipv6))))),
      ),
    )

made_Checked :
    (help : Bytes) (m : Machine) (c : Config) (f : Features) {a : Unit {0}}
    → f ≡ features_in m help
    → check_features c f ≡ ok a
    → Checked help (record c { mtu = default_mtu c.mtu; ifname = default_ifname c.ifname })
made_Checked help m c f {a} same e =
    let k = check_features-Checked help m c (subst (λ f. check_features c f ≡ ok a) same e) in
    record {
      loopback = k.loopback;
      cidr = k.cidr;
      socket = k.socket;
      sandbox = k.sandbox;
      seccomp = k.seccomp;
      ipv6 = k.ipv6;
    }

-- A driver that NewParentDriver has made starts slirp4netns with no option, before the namespaces,
-- that the help text of its binary does not have, but --mtu and -r; so a driver is made only where
-- the binary was found and its text read.
pub options-AreSupported :
    (sys : System) (m : Machine) (c d : Config)
    → new_parent_driver m c ≡ ok d
    → (help : Bytes) × (m.help d.binary ≡ some help) × All (IsSupported help) (options sys d)
unfolding new_parent_driver
options-AreSupported sys m c d h =
    let made : Config = record c { mtu = default_mtu c.mtu; ifname = default_ifname c.ifname } in
    let finish = λ (f : Features). check_features c f >> ok made in
    let (_, h1) = reject_if-ok (is_empty c.binary) empty_binary _ h in
    let (_, h2) = reject_if-ok (ltb_ℤ c.mtu (pos 0)) negative_mtu _ h1 in
    let (f, e1, h3) = bind-eq-ok (detect_features m c.binary) finish h2 in
    let (help, found, same) = detect_features-ok m c.binary f e1 in
    let (_, e2, e3) = bind-eq-ok (check_features c f) (λ _. ok made) h3 in
    let d_made : made ≡ d = ground arith in
    (
      help,
      subst (λ d. m.help d.binary ≡ some help) d_made found,
      subst (λ d. All (IsSupported help) (options sys d)) d_made
          (options-All sys help made (made_Checked help m c f same e2)),
    )
