-- ===== src/Network.antt =====
-- What the parent's network drivers have in common: pkg/network/parentutils/parentutils.go, the calls
-- that they make, and what they tell of the network.
pub mod Features
pub mod Slirp4netns
pub mod Pasta
pub mod Gvisor
pub mod Vpnkit
pub mod Opaque
pub mod Addresses
pub mod Supported
pub mod Agreement
pub mod Examples
use rootlesskit.Base.{if◌then◌else◌, ℤ, pos, eq_ℤ, ℕ, Option, List, [], ◌∷◌, ◌++◌, map, wrap_err}
use rootlesskit.Text.{Bytes, codes, is_empty}
use rootlesskit.Text.Decimal.{itoa}
use rootlesskit.Net.{Net}
use rootlesskit.Messages.{InitNetwork}
use rootlesskit.Calls.{Kernel, Act, ◌>>=◌, ◌>>◌, call, pure, fail}
use rootlesskit.Options.{IpNet}
use rootlesskit.IpUtils
use rootlesskit.IpUtils.{add_ip_int}

pub data Call : Type 0 where
  -- A command that is run to its end, and one that is started.
  exec start : List Bytes → Call
  pipe : Call
  -- `waitForReadyFD`.
  wait_ready : Call
  mkdir_all remove_all listen : Bytes → Call
  new_virtual_network : Call
  -- A connection to vpnkit, by its socket, and then to an interface of it, by its UUID.
  connect connect_vif : Bytes → Call

pub data Error : Type 0 where
  empty_binary negative_mtu sandbox_and_detached : Error
  -- What the binary does not support.
  unsupported : Bytes → Error
  no_seccomp : Error
  -- The program that was looked for or asked for its features.
  not_usable : Error
  tap_failed pipe_failed start_failed not_ready exec_failed : Bytes → Error
  mkdir_failed remove_failed listen_failed network_failed connect_failed : Bytes → Error
  bad_address : IpUtils.Error → Error

-- The kernel, the printers of addresses and networks, and `Mask.Size`.
pub record System : Type 0 where
  pub kernel : Kernel Call
  pub net : Net
  pub net_string : IpNet → Bytes
  pub mask_size : IpNet → ℤ

-- `nsenter`.
nsenter : ℤ → Bytes → List Bytes → List Bytes
nsenter pid netns cmd =
    codes "nsenter"
    ∷ codes "-t"
    ∷ itoa pid
    ∷ (if is_empty netns then codes "-n" else codes "-n" ++ netns)
    ∷ codes "-m"
    ∷ codes "-U"
    ∷ codes "--preserve-credentials"
    ∷ cmd

-- `PrepareTap`.
unfoldable pub prepare_tap : Kernel Call → ℤ → Bytes → Bytes → Act Call Error Bytes
unfolding nsenter
prepare_tap kernel pid netns tap = do
  call kernel tap_failed (
      exec (
        nsenter pid netns (
          codes "ip"
          ∷ codes "tuntap"
          ∷ codes "add"
          ∷ codes "name"
          ∷ tap
          ∷ codes "mode"
          ∷ codes "tap"
          ∷ [])))
  call kernel tap_failed
      (exec (nsenter pid netns (codes "ip" ∷ codes "link" ∷ codes "set" ∷ tap ∷ codes "up" ∷ [])))

-- `iputils.AddIPInt` in a driver, which gives its error back.
unfoldable pub offset : IpNet → ℕ → Act Call Error Bytes
offset ipnet n log = (wrap_err bad_address (add_ip_int ipnet.ip (pos n)), log)

unfoldable pub default_mtu : ℤ → ℤ
default_mtu mtu = if eq_ℤ mtu (pos 0) then pos 65520 else mtu

unfoldable pub default_ifname : Bytes → Bytes
default_ifname [] = codes "tap0"
default_ifname (c ∷ s) = c ∷ s

-- `api.NetworkDriverInfo`.
pub record Info : Type 0 where
  pub driver : Bytes
  pub dns : List (Option Bytes)
  pub child_ip : Option Bytes

-- What a driver tells of itself once the network is configured.
unfoldable pub info_of : {V : Type 0} → Net → Bytes → InitNetwork V → Info
info_of net name msg = record {
  driver = name;
  dns = map net.parse_ip msg.dns;
  child_ip = net.parse_ip msg.ip;
}
