-- ===== src/Gvisor/Startup.antt =====
-- `RunParentDriver` of pkg/port/gvisortapvsock/gvisortapvsock.go.
use rootlesskit.Base.{◌≡◌, refl, ◌↔◌, true, false, Option, none, some, arith, Result, ok, err}
use rootlesskit.Text.{Bytes}
use rootlesskit.Net.{Net}
use rootlesskit.Gvisor.{Driver, Mux}

-- `port.ChildContext`; `nil` is `none`, and a network is its `Mux()`.
pub record ChildContext : Type 0 where
  pub ip : Option Bytes
  pub network : Option Mux
  pub gateway_ip : Bytes

pub data StartError : Type 0 where
  ip_required no_services_mux : StartError

unfoldable pub check_mux : Driver → Mux → Driver × Result StartError (Unit {0})
check_mux d none = (d, err no_services_mux)
check_mux d (some serve) = (record d { locked = false }, ok tt)

-- The part with the lock.
unfoldable pub start_locked :
    Net → ChildContext → Bytes → Driver → Driver × Result StartError (Unit {0})
unfolding check_mux
start_locked net cctx ip d =
    let mux : Mux = elim cctx.network [ some m ↦ m | none ↦ d.services_mux ] in
    check_mux
      (record d {
        child_ip = net.ip_string ip;
        gateway_ip = cctx.gateway_ip;
        has_cancel = true;
        services_mux = mux;
        locked = true;
      })
      mux

with_context : Net → ChildContext → Option Bytes → Driver → Driver × Result StartError (Unit {0})
with_context net cctx none d = (d, err ip_required)
with_context net cctx (some ip) d = start_locked net cctx ip d

-- `RunParentDriver` up to its wait for `quit`: a success has closed initComplete.
unfoldable pub run_parent_driver :
    Net → Option ChildContext → Driver → Driver × Result StartError (Unit {0})
unfolding with_context
run_parent_driver net none d = (d, err ip_required)
run_parent_driver net (some cctx) d = with_context net cctx cctx.ip d

-- After `quit`.
unfoldable pub stop_parent_driver : Driver → Driver
stop_parent_driver d = record d { has_cancel = false }

check_mux-locked :
    (d : Driver) (mux : Mux)
    → d.locked ≡ true
    → ((check_mux d mux).0.locked ≡ true) ↔ ((check_mux d mux).1 ≡ err no_services_mux)
unfolding check_mux
check_mux-locked d none h = ground arith
check_mux-locked d (some serve) h = ground arith

start_locked-locked :
    (net : Net) (cctx : ChildContext) (ip : Bytes) (d : Driver)
    → ((start_locked net cctx ip d).0.locked ≡ true)
      ↔ ((start_locked net cctx ip d).1 ≡ err no_services_mux)
unfolding start_locked
start_locked-locked net cctx ip d = check_mux-locked _ _ refl

with_context-locked :
    (net : Net) (cctx : ChildContext) (ip : Option Bytes) (d : Driver)
    → d.locked ≡ false
    → ((with_context net cctx ip d).0.locked ≡ true)
      ↔ ((with_context net cctx ip d).1 ≡ err no_services_mux)
unfolding with_context
with_context-locked net cctx none d h = ground arith
with_context-locked net cctx (some ip) d h = start_locked-locked net cctx ip d

-- RunParentDriver, of a driver that is not locked, holds the lock when it returns or waits just
-- where it fails for want of a services mux.
pub run_parent_driver-locked :
    (net : Net) (cctx : Option ChildContext) (d : Driver)
    → d.locked ≡ false
    → ((run_parent_driver net cctx d).0.locked ≡ true)
      ↔ ((run_parent_driver net cctx d).1 ≡ err no_services_mux)
unfolding run_parent_driver
run_parent_driver-locked net none d h = ground arith
run_parent_driver-locked net (some cctx) d h = with_context-locked net cctx cctx.ip d h
