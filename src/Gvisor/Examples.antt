-- ===== src/Gvisor/Examples.antt =====
-- Tests of the gvisor-tap-vsock driver, with a mux that answers 200 to every request.
use rootlesskit.Base.{if◌then◌else◌, pos, eq_ℤ, ◌≡◌, refl, none, some, arith, ok}
use rootlesskit.Text.Search.{has_prefix}
use rootlesskit.Port.{Status}
use rootlesskit.Port.Table.{lookup}
use rootlesskit.Port.Examples.{web}
use rootlesskit.Port.Validate.Accepts.{SameAddress}
use rootlesskit.Gvisor.{
  Driver, new_parent_driver, call_mux, status, add_port, expose_request, with_child_ip, add_checked,
  register,
}
use rootlesskit.Gvisor.Manager.{Inv, gvisor_add}

abbrev served : Driver
served = record new_parent_driver { services_mux = some λ req. status 200 }

abbrev web_status : Status
web_status = record { id = pos 1; spec = web }

served-Inv : Inv served
unfolding lookup
served-Inv = record { free_above = λ j h. refl; own_id = λ j st h. absurd (ground arith) }

added : (add_port web served).1 ≡ ok web_status
unfolding add_port add_checked register call_mux has_prefix
added = refl

gvisor_add_example :
    (lookup (pos 1) served.ports ≡ none)
    × SameAddress web web
    × (call_mux served.services_mux (expose_request (with_child_ip served web)) ≡ ok tt)
    × (lookup (pos 2) (add_port web served).0.ports
        ≡ (if eq_ℤ (pos 1) (pos 2) then some web_status else lookup (pos 2) served.ports))
    × Inv (add_port web served).0
gvisor_add_example = gvisor_add web served web_status (pos 2) served-Inv (ground arith) added
