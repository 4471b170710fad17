-- ===== src/Network/Features.antt =====
-- DetectFeatures and NewParentDriver of pkg/network/slirp4netns/slirp4netns.go.
use rootlesskit.Base.{
  ℤ, pos, ltb_ℤ, Bool, true, false, not, ◌&&◌, Option, none, some, Result, ok, ◌>>=◌, ◌>>◌,
  reject_if, or_fail,
}
use rootlesskit.Text.{Bytes, codes, is_empty}
use rootlesskit.Text.Search.{has_infix}
use rootlesskit.Options.{IpNet}
use rootlesskit.Network.{
  Error, empty_binary, negative_mtu, unsupported, no_seccomp, not_usable, default_mtu,
  default_ifname,
}

pub record Features : Type 0 where
  pub enable_ipv6 : Bool
  pub cidr : Bool
  pub disable_host_loopback : Bool
  pub api_socket : Bool
  pub enable_sandbox : Bool
  pub enable_seccomp : Bool
  pub kernel_seccomp : Bool

-- What `--help` of a binary prints, where it can be found and run; and whether the kernel has
-- seccomp filters.
pub record Machine : Type 0 where
  pub help : Bytes → Option Bytes
  pub seccomp : Bool

pub record Config : Type 0 where
  pub binary : Bytes
  pub mtu : ℤ
  pub ipnet : Option IpNet
  pub ifname : Bytes
  pub disable_host_loopback : Bool
  pub api_socket_path : Bytes
  pub enable_sandbox : Bool
  pub enable_seccomp : Bool
  pub enable_ipv6 : Bool

-- The constructor and `parentDriver` have the same fields.
unfoldable pub features_in : Machine → Bytes → Features
unfolding has_infix
features_in m help = record {
  enable_ipv6 = has_infix help (codes "--enable-ipv6");
  cidr = has_infix help (codes "--cidr");
  disable_host_loopback = has_infix help (codes "--disable-host-loopback");
  api_socket = has_infix help (codes "--api-socket");
  enable_sandbox = has_infix help (codes "--enable-sandbox");
  enable_seccomp = has_infix help (codes "--enable-seccomp");
  kernel_seccomp = m.seccomp;
}

-- `DetectFeatures`.
unfoldable pub detect_features : Machine → Bytes → Result Error Features
unfolding features_in
detect_features m binary = do
  reject_if (is_empty binary) empty_binary
  help ← or_fail (m.help binary) not_usable
  reject_if (not (has_infix help (codes "--netns-type"))) (unsupported (codes "--netns-type"))
  ok (features_in m help)

abbrev pub is_given : Option IpNet → Bool
is_given none = false
is_given (some n) = true

-- The checks of NewParentDriver that look at the features.
unfoldable pub check_features : Config → Features → Result Error (Unit {0})
check_features c f = do
  reject_if (c.enable_ipv6 && not f.enable_ipv6) (unsupported (codes "--enable-ipv6"))
  reject_if (is_given c.ipnet && not f.cidr) (unsupported (codes "--cidr"))
  reject_if (c.disable_host_loopback && not f.disable_host_loopback)
      (unsupported (codes "--disable-host-loopback"))
  reject_if (not (is_empty c.api_socket_path) && not f.api_socket)
      (unsupported (codes "--api-socket"))
  reject_if (c.enable_sandbox && not f.enable_sandbox) (unsupported (codes "--enable-sandbox"))
  reject_if (c.enable_seccomp && not f.enable_seccomp) (unsupported (codes "--enable-seccomp"))
  reject_if (c.enable_seccomp && not f.kernel_seccomp) no_seccomp

-- `NewParentDriver`.
unfoldable pub new_parent_driver : Machine → Config → Result Error Config
unfolding check_features
new_parent_driver m c = do
  reject_if (is_empty c.binary) empty_binary
  reject_if (ltb_ℤ c.mtu (pos 0)) negative_mtu
  f ← detect_features m c.binary
  check_features c f
  ok (record c { mtu = default_mtu c.mtu; ifname = default_ifname c.ifname })
