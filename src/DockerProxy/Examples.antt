-- ===== src/DockerProxy/Examples.antt =====
-- Tests of the replacement of docker-proxy, over the builtin driver.
use rootlesskit.Base.{pos, refl, false, none, some, [], ◌∷◌, arith, Result, ok}
use rootlesskit.Text.{codes}
use rootlesskit.Port.Table.{Same}
use rootlesskit.Port.Examples.{net}
use rootlesskit.Api.{Info, PortDriverInfo}
use rootlesskit.Builtin
use rootlesskit.Builtin.{
  Driver, new_driver, Stopping, stopped, start_routine, commit, next_int, StopError, add_port,
}
use rootlesskit.Builtin.Manager.{manager, manager-laws, new_driver-Inv, remove_port-stopped}
use rootlesskit.Builtin.Examples.{listening}
use rootlesskit.DockerProxy.{Flags, Error, Outcome, proxied, xmain}
use rootlesskit.DockerProxy.Restores.{xmain-restores}

abbrev driver_info : PortDriverInfo
driver_info = record {
  driver = codes "builtin";
  protos = codes "tcp4" ∷ codes "udp4" ∷ [];
  disallow_loopback_child_ip = false;
}

abbrev info : Info
info = record {
  api_version = codes "1.1.1";
  version = [];
  state_dir = [];
  child_pid = pos 7;
  network_driver = none;
  port_driver = some driver_info;
}

abbrev flags : Flags
flags = record { host_ip = codes "127.0.0.1"; host_port = pos 8080; proto = codes "tcp" }

abbrev served : Driver → Driver × Result (Error Builtin.Error) Outcome
served d = (d, ok proxied)

xmain-restores_example :
    Same
      (xmain (manager net) net listening (stopped none) served info flags new_driver).0.ports
      new_driver.ports
xmain-restores_example =
    xmain-restores (manager-laws net) net listening (stopped none) served (λ t v. v) (λ t j. refl)
      remove_port-stopped info flags new_driver new_driver-Inv (λ spec. ground arith)
