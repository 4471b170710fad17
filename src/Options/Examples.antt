-- ===== src/Options/Examples.antt =====
-- Tests of the options: a slirp4netns network with the builtin port driver and one published port.
use rootlesskit.Base.{pos, ◌≡◌, refl, true, false, none, some, [], ◌∷◌, ◌++◌, ok}
use rootlesskit.Text.{codes, str_eq}
use rootlesskit.Text.Search.{last_index}
use rootlesskit.Text.Decimal.{atoi}
use rootlesskit.Port.Examples.{net, char_scan, web, resolve}
use rootlesskit.Port.Parse.{parse_port_spec, slice, scan_parts, finish_spec}
use rootlesskit.Port.Validate.{validate_port_spec, validate_proto, find_conflict}
use rootlesskit.Options.{
  Flags, NetworkMode, PortMode, Features, network_mode, port_mode, slirp4netns, builtin,
  slirp4netns_driver, builtin_ports,
}
use rootlesskit.Options.Parent.{
  System, Opt, create_parent_opt, network_for, port_for, publish_ports, choose_drivers, parse_cidr,
  choose_dir, check_evacuate, slirp4netns_network, sandbox, seccomp, api_socket_path,
}
use rootlesskit.Options.Child
use rootlesskit.Options.Child.{create_child_opt, choose_reaper, check_copy_up}
use rootlesskit.Options.Drivers.{
  drivers_agree, combination_supported, is_supported, network_served, port_served,
}

abbrev flags : Flags
flags = record {
  pidns = true;
  cgroupns = false;
  utsns = false;
  ipcns = false;
  detach_netns = false;
  propagation = codes "rprivate";
  evacuate_cgroup2 = [];
  subid_source = codes "auto";
  state_dir = codes "/run/rk";
  net = codes "slirp4netns";
  mtu = pos 65520;
  cidr = [];
  ifname = [];
  ipv6 = false;
  disable_host_loopback = true;
  port_driver = codes "builtin";
  pasta_binary = codes "pasta";
  slirp4netns_binary = codes "slirp4netns";
  slirp4netns_sandbox = codes "auto";
  slirp4netns_seccomp = codes "false";
  vpnkit_binary = codes "vpnkit";
  lxc_user_nic_binary = [];
  lxc_user_nic_bridge = [];
  source_ip_transparent = false;
  publish = codes "127.0.0.1:8080:80/tcp" ∷ [];
  reaper = codes "auto";
  copy_up = codes "/etc" ∷ [];
  copy_up_mode = codes "tmpfs+symlink";
  args = codes "bash" ∷ [];
}

abbrev features : Features
features = record {
  supports_disable_host_loopback = true;
  supports_api_socket = true;
  supports_enable_sandbox = true;
  supports_enable_seccomp = false;
  kernel_supports_enable_seccomp = false;
}

abbrev system : System
system = record {
  mkdir_temp = none;
  abs = some;
  init_state_dir = λ d. true;
  join = λ a b. a ++ b'/' ∷ b;
  parse_net = λ s. none;
  ip_equal = str_eq;
  look_path = λ s. true;
  detect_features = λ s. some features;
  starts = λ d. true;
  builtin_starts = λ d. true;
}

abbrev opt : Opt
opt = record {
  create_pidns = true;
  create_cgroupns = false;
  create_utsns = false;
  create_ipcns = false;
  detach_netns = false;
  propagation = codes "rprivate";
  evacuate_cgroup2 = [];
  subid_source = codes "auto";
  state_dir = codes "/run/rk";
  network_driver =
      some (slirp4netns_driver (codes "slirp4netns") (pos 65520) none [] true [] true false false);
  port_driver = some (builtin_ports (codes "/run/rk") false);
  publish_ports = record web { child_ip = [] } ∷ [];
}

abbrev child_opt : Child.Opt
child_opt = record {
  target_cmd = codes "bash" ∷ [];
  mount_procfs = true;
  detach_netns = false;
  propagation = codes "rprivate";
  evacuate_cgroup2 = false;
  reaper = true;
  network_driver = some slirp4netns;
  copy_up_dirs = codes "/etc" ∷ [];
  port_driver = some builtin;
}

accepted : create_parent_opt net char_scan system flags ≡ ok opt
unfolding create_parent_opt network_for port_for publish_ports choose_drivers parse_cidr choose_dir
    check_evacuate slirp4netns_network sandbox seccomp api_socket_path network_mode port_mode
    parse_port_spec last_index slice scan_parts finish_spec atoi validate_proto validate_port_spec
    find_conflict resolve str_eq
accepted = refl

child_accepted : create_child_opt flags ≡ ok child_opt
unfolding create_child_opt choose_reaper check_copy_up network_mode port_mode str_eq
child_accepted = refl

drivers_agree_example :
    (child_opt.port_driver ≡ port_served opt.port_driver)
    × (child_opt.network_driver ≡ network_served opt.network_driver)
drivers_agree_example =
    drivers_agree net char_scan system flags opt child_opt accepted child_accepted

combination_supported_example :
    (m : NetworkMode) × (p : PortMode) × (network_mode flags.net ≡ some m)
    × (port_mode flags.port_driver ≡ some p)
    × (is_supported m p ≡ true)
combination_supported_example = combination_supported net char_scan system flags opt accepted
