-- ===== src/Network/Slirp4netns.antt =====
-- The parent's part of pkg/network/slirp4netns/slirp4netns.go, and its child's.
use rootlesskit.Base.{
  if◌then◌else◌, ℤ, pos, Bool, not, ◌&&◌, Option, none, some, List, [], ◌∷◌, ◌++◌,
}
use rootlesskit.Text.{Bytes, codes, is_empty}
use rootlesskit.Text.Decimal.{itoa}
use rootlesskit.Messages.{InitNetwork}
use rootlesskit.Calls.{Act, ◌>>=◌, ◌>>◌, call, pure, fail_if}
use rootlesskit.Options.{IpNet}
use rootlesskit.Network.{
  System, Call, Error, start, pipe, wait_ready, sandbox_and_detached, pipe_failed, start_failed,
  not_ready, prepare_tap, offset,
}
use rootlesskit.Network.Features.{Config}

-- An option of the command line, with its value if it has one.
abbrev pub CliOption : Type 0
CliOption = Bytes × Option Bytes

abbrev pub given : Bool → CliOption → List CliOption
given b o = if b then o ∷ [] else []

unfoldable pub cidr_option : (IpNet → Bytes) → Option IpNet → List CliOption
cidr_option print none = []
cidr_option print (some n) = (codes "--cidr", some (print n)) ∷ []

-- The options up to the namespaces.
unfoldable pub options : System → Config → List CliOption
unfolding cidr_option
options sys d =
    (codes "--mtu", some (itoa d.mtu))
    ∷ (codes "-r", some (codes "3"))
    ∷ (given d.disable_host_loopback (codes "--disable-host-loopback", none)
        ++ (cidr_option sys.net_string d.ipnet
            ++ (given (not (is_empty d.api_socket_path))
                  (codes "--api-socket", some d.api_socket_path)
                ++ (given d.enable_sandbox (codes "--enable-sandbox", none)
                    ++ (given d.enable_seccomp (codes "--enable-seccomp", none)
                        ++ given d.enable_ipv6 (codes "--enable-ipv6", none))))))

unfoldable pub words : List CliOption → List Bytes
words [] = []
words ((name, none) ∷ os) = name ∷ words os
words ((name, some value) ∷ os) = name ∷ value ∷ words os

unfoldable pub command : System → Config → ℤ → Bytes → List Bytes
unfolding options words
command sys d pid netns =
    d.binary ∷ words (options sys d)
    ++ (if is_empty netns
        then itoa pid ∷ []
        else (codes "--userns-path=/proc/" ++ itoa pid ++ codes "/ns/user")
          ∷ codes "--netns-type=path"
          ∷ netns
          ∷ [])
    ++ d.ifname ∷ []

unfoldable pub v6_dns : Bool → List Bytes
v6_dns enable = if enable then codes "fd00::3" ∷ [] else []

-- The fields of the message that are known beforehand, and the addresses.
unfoldable pub message_with : {V : Type 0} → Config → ℤ → Bytes → Bytes → Bytes → InitNetwork V
unfolding v6_dns
message_with d netmask ip gateway dns = record {
  network = none;
  dev = d.ifname;
  ip = ip;
  netmask = netmask;
  gateway = gateway;
  dns = dns ∷ v6_dns d.enable_ipv6;
  mtu = d.mtu;
  opaque = [];
}

module _ (sys : System) {V : Type 0} where
  -- The message, from the network or the default of slirp4netns.
  unfoldable pub message : Config → Option IpNet → Act Call Error (InitNetwork V)
  unfolding message_with
  message d (some ipnet) = do
    ip ← offset ipnet 100
    gateway ← offset ipnet 2
    dns ← offset ipnet 3
    let text = sys.net.ip_string
    pure (message_with d (sys.mask_size ipnet) (text ip) (text gateway) (text dns))
  message d none =
      pure (message_with d (pos 24) (codes "10.0.2.100") (codes "10.0.2.2") (codes "10.0.2.3"))

  -- slirp4netns is started, and answers on a pipe when it is ready.
  unfoldable pub run_slirp4netns : Config → ℤ → Bytes → Act Call Error (InitNetwork V)
  unfolding command message
  run_slirp4netns d pid netns = do
    call sys.kernel pipe_failed pipe
    call sys.kernel start_failed (start (command sys d pid netns))
    call sys.kernel not_ready wait_ready
    message d d.ipnet

  -- `ConfigureNetwork`.
  unfoldable pub configure_network : Config → ℤ → Bytes → Act Call Error (InitNetwork V)
  unfolding prepare_tap run_slirp4netns
  configure_network d pid netns = do
    fail_if (not (is_empty netns) && d.enable_sandbox) sandbox_and_detached
    prepare_tap sys.kernel pid netns d.ifname
    run_slirp4netns d pid netns

-- What `waitForReadyFD` meets in a round: the pipe is ready, or the time is out and the process is
-- asked for, or something fails.
pub data Round : Type 0 where
  ready deadline_failed read_failed : Round
  wait_failed running exited signaled stopped : Round

pub data Outcome : Type 0 where
  is_ready has_failed : Outcome

-- `waitForReadyFD`; without an outcome it is still waiting.
unfoldable pub wait_for_ready : List Round → Option Outcome
wait_for_ready [] = none
wait_for_ready (ready ∷ rounds) = some is_ready
wait_for_ready (running ∷ rounds) = wait_for_ready rounds
wait_for_ready (stopped ∷ rounds) = wait_for_ready rounds
wait_for_ready (r ∷ rounds) = some has_failed

-- `ConfigureNetworkChild`; the device is set up by the parent.
unfoldable pub configure_network_child : {V : Type 0} → InitNetwork V → Option Bytes
configure_network_child msg = if is_empty msg.dev then none else some msg.dev
