-- ===== src/Network/Agreement.antt =====
-- The drivers of slirp4netns and pasta tell the child the same.
use rootlesskit.Base.{
  ℤ, pos, ℕ, ◌+◌, ◌≤◌, ◌≡◌, refl, sym, ◌∙◌, ◌⊎◌, inl, inr, false, not, ◌&&◌, Option, none, some,
  List, ◌∷◌, arith, Result, ok,
}
use rootlesskit.Text.{Bytes, codes}
use rootlesskit.Messages.{InitNetwork}
use rootlesskit.Calls.{Act, ◌>>◌, pure, call, act-bind-ok, call-bind-ok, fail_if-ok}
use rootlesskit.Options.{IpNet}
use rootlesskit.IpUtils.{put_uint32}
use rootlesskit.Network.{
  System, Call, Error, prepare_tap, exec, pipe, start, wait_ready, pipe_failed, start_failed,
  not_ready, exec_failed, sandbox_and_detached, is_empty,
}
use rootlesskit.Network.Features.{Config}
use rootlesskit.Network.Slirp4netns
use rootlesskit.Network.Slirp4netns.{message, message_with, v6_dns}
use rootlesskit.Network.Pasta
use rootlesskit.Network.Addresses.{IsNet, offsets-ok}

same_message :
    {V : Type 0} {x y : InitNetwork V} {l m : List Call}
    → ◌≡◌ {A = Result Error (InitNetwork V) × List Call} (ok x, l) (ok y, m)
    → x ≡ y
same_message e = cc

module _ (sys : System) (ipnet : IpNet) (first : ℕ) where
  abbrev text : ℕ → Bytes
  text k = sys.net.ip_string (put_uint32 (first + k))

  -- The network that slirp4netns has by default, and how its addresses are printed.
  abbrev pub IsDefault : Type 0
  IsDefault =
      (sys.mask_size ipnet ≡ pos 24)
      × (text 100 ≡ codes "10.0.2.100")
      × (text 2 ≡ codes "10.0.2.2")
      × (text 3 ≡ codes "10.0.2.3")

  abbrev expected : {V : Type 0} → Config → InitNetwork V
  expected d = message_with d (sys.mask_size ipnet) (text 100) (text 2) (text 3)

  module _ (size : ℕ) (n : IsNet ipnet first size) (large : 102 ≤ size) {V : Type 0} where
    message-some :
        (d : Config) (log log' : List Call) {msg : InitNetwork V}
        → message sys d (some ipnet) log ≡ (ok msg, log')
        → msg ≡ expected d
    unfolding message
    message-some d log log' h =
        let go : Bytes → Bytes → Bytes → Act Call Error (InitNetwork V) = λ a g s. pure (
          message_with d (sys.mask_size ipnet) (sys.net.ip_string a) (sys.net.ip_string g)
            (sys.net.ip_string s)) in
        same_message (
          sym h
          ∙ offsets-ok ipnet first size 100 2 3 log go n (omega arith) (omega arith) (omega arith))

    slirp_message :
        (d : Config) (o : Option IpNet) (log log' : List Call) {msg : InitNetwork V}
        → (o ≡ some ipnet) ⊎ ((o ≡ none) × IsDefault)
        → message sys d o log ≡ (ok msg, log')
        → msg ≡ expected d
    unfolding message
    slirp_message d o log log' (inl e) h = message-some d log log' (rw e at h)
    slirp_message d o log log' (inr (e, (size24, ip, gateway, dns))) h =
        same_message (sym (rw e at h)) ∙ rw (size24, ip, gateway, dns) refl

    configured :
        (d : Config) (pid : ℤ) (netns : Bytes) (log log' : List Call) {msg : InitNetwork V}
        → Slirp4netns.configure_network sys d pid netns log ≡ (ok msg, log')
        → (mid : List Call) × (message sys d d.ipnet mid ≡ (ok msg, log'))
    unfolding Slirp4netns.configure_network Slirp4netns.run_slirp4netns
    configured d pid netns log log' h =
        let told = message sys d d.ipnet in
        let run = Slirp4netns.run_slirp4netns sys d pid netns in
        let tap = prepare_tap sys.kernel pid netns d.ifname in
        let cmd = start (Slirp4netns.command sys d pid netns) in
        let wait = call sys.kernel not_ready wait_ready >> told in
        let (_, h1) =
          fail_if-ok (not (is_empty netns) && d.enable_sandbox) sandbox_and_detached (tap >> run)
            log h in
        let (_, l1, _, h2) = act-bind-ok tap (λ _. run) log h1 in
        let (_, _, h3) =
          call-bind-ok sys.kernel pipe_failed pipe (λ _. call sys.kernel start_failed cmd >> wait)
            l1 h2 in
        let (_, _, h4) = call-bind-ok sys.kernel start_failed cmd (λ _. wait) (pipe ∷ l1) h3 in
        let (_, _, h5) =
          call-bind-ok sys.kernel not_ready wait_ready (λ _. told) (cmd ∷ pipe ∷ l1) h4 in
        (wait_ready ∷ cmd ∷ pipe ∷ l1, h5)

-- The drivers of pasta and of slirp4netns without IPv6, both set to one device and MTU and to one
-- network of IPv4 with at least 102 addresses, tell the child the same where both succeed; also if
-- slirp4netns's driver has no network and pasta's has the one that slirp4netns has by default.
pub configure_network-agree :
    {V : Type 0} (sys : System) (d : Config) (p : Pasta.Driver) (first size : ℕ) (pid pid' : ℤ)
    (netns netns' : Bytes) (l1 l2 m1 m2 : List Call) (msg msg' : InitNetwork V)
    → IsNet p.ipnet first size
    → 102 ≤ size
    → (d.ipnet ≡ some p.ipnet) ⊎ ((d.ipnet ≡ none) × IsDefault sys p.ipnet first)
    → d.ifname ≡ p.ifname
    → d.mtu ≡ p.mtu
    → d.enable_ipv6 ≡ false
    → Slirp4netns.configure_network sys d pid netns l1 ≡ (ok msg, m1)
    → Pasta.configure_network sys p pid' netns' l2 ≡ (ok msg', m2)
    → msg ≡ msg'
unfolding Pasta.configure_network Pasta.run_pasta Pasta.message_with message_with v6_dns
configure_network-agree {V} sys d p first size pid pid' netns netns' l1 l2 m1 m2 msg msg' n large
      nets dev mtu v6 h h' =
    let text = λ (k : ℕ). sys.net.ip_string (put_uint32 (first + k)) in
    let (mid, told) = configured sys p.ipnet first size n large d pid netns l1 m1 h in
    let left = slirp_message sys p.ipnet first size n large d d.ipnet mid m1 nets told in
    let cmd = exec (Pasta.command sys p pid' netns' (text 100) (text 2) (text 3)) in
    let run : Bytes → Bytes → Bytes → Act Call Error (InitNetwork V) = λ a g s.
      Pasta.run_pasta sys p pid' netns' (sys.net.ip_string a) (sys.net.ip_string g)
        (sys.net.ip_string s) in
    let same =
      offsets-ok p.ipnet first size 100 2 3 l2 run n (omega arith) (omega arith) (omega arith) in
    let (_, _, e) =
      call-bind-ok sys.kernel exec_failed cmd
        (λ _. pure (Pasta.message_with p (sys.mask_size p.ipnet) (text 100) (text 2) (text 3))) l2
        (sym same ∙ h') in
    left ∙ (rw (dev, mtu, v6) (same_message e))
