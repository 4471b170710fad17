-- ===== src/Options/Child.antt =====
-- `createChildOpt` of cmd/rootlesskit/main.go.
use rootlesskit.Base.{
  if◌then◌else◌, Bool, true, false, not, ◌&&◌, ◌||◌, Option, none, some, List, [], ◌∷◌, Result, ok,
  err, ◌>>=◌, ◌>>◌, reject_if, or_fail,
}
use rootlesskit.Text.{Bytes, codes, str_eq, is_empty}
use rootlesskit.Options.{
  Flags, NetworkMode, PortMode, network_mode, port_mode, host, none_mode, no_port, implicit,
}

pub data Error : Type 0 where
  reaper_requires_pidns unknown_reaper unknown_network copy_up_unsupported : Error
  unknown_copy_up unknown_port_driver : Error

-- `child.Opt`; a driver is given by the mode that it serves.
pub record Opt : Type 0 where
  pub target_cmd : List Bytes
  pub mount_procfs : Bool
  pub detach_netns : Bool
  pub propagation : Bytes
  pub evacuate_cgroup2 : Bool
  pub reaper : Bool
  pub network_driver : Option NetworkMode
  pub copy_up_dirs : List Bytes
  pub port_driver : Option PortMode

-- The switch on "reaper".
unfoldable pub choose_reaper : Flags → Result Error Bool
choose_reaper f =
    if str_eq f.reaper (codes "auto")
    then ok f.pidns
    else if str_eq f.reaper (codes "true")
    then (do reject_if (not f.pidns) reaper_requires_pidns; ok true)
    else if str_eq f.reaper (codes "false")
    then ok false
    else err unknown_reaper

-- The switch on "net".
abbrev pub child_network : NetworkMode → Option NetworkMode
child_network host = none
child_network none_mode = none
child_network m = some m

-- The switch on "port-driver".
abbrev pub child_port : PortMode → Option PortMode
child_port no_port = none
child_port implicit = none
child_port m = some m

has_dirs : List Bytes → Bool
has_dirs [] = false
has_dirs (d ∷ ds) = true

-- The switch on "copy-up-mode".
unfoldable pub check_copy_up : Flags → Result Error (Unit {0})
unfolding has_dirs
check_copy_up f =
    if str_eq f.copy_up_mode (codes "tmpfs+symlink")
    then reject_if
        (has_dirs f.copy_up
          && (str_eq f.propagation (codes "rshared") || str_eq f.propagation (codes "shared")))
        copy_up_unsupported
    else err unknown_copy_up

-- `createChildOpt`.
unfoldable pub create_child_opt : Flags → Result Error Opt
unfolding check_copy_up
create_child_opt f = do
  reaper ← choose_reaper f
  mode ← or_fail (network_mode f.net) unknown_network
  check_copy_up f
  port ← or_fail (port_mode f.port_driver) unknown_port_driver
  ok (record {
    target_cmd = f.args;
    mount_procfs = f.pidns;
    detach_netns = f.detach_netns;
    propagation = f.propagation;
    evacuate_cgroup2 = not (is_empty f.evacuate_cgroup2);
    reaper = reaper;
    network_driver = child_network mode;
    copy_up_dirs = f.copy_up;
    port_driver = child_port port;
  })
