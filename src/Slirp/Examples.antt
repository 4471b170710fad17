-- ===== src/Slirp/Examples.antt =====
-- Tests of the slirp4netns driver, with an API that gives every forward the ID 7.
use rootlesskit.Base.{if◌then◌else◌, ℤ, pos, eq_ℤ, ◌≡◌, refl, false, none, some, [], arith, ok, err}
use rootlesskit.Text.{codes}
use rootlesskit.Text.Search.{has_suffix, trim_suffix}
use rootlesskit.Net.{to4}
use rootlesskit.Port.{Status}
use rootlesskit.Port.Table.{lookup}
use rootlesskit.Port.Examples.{net, web, resolve}
use rootlesskit.Port.Validate.{validate_port_spec, find_conflict, validate_proto}
use rootlesskit.Slirp.{
  Driver, Api, Reply, number, add_port, request_forward, guest_addr, read_id, api_failed,
}
use rootlesskit.Slirp.Manager.{Inv, slirp_add}

abbrev idle : Driver
idle = record { api_socket_path = codes "/api.sock"; child_ip = []; ports = [] }

abbrev seven : Reply
seven = record { has_error = false; return_id = some (number (pos 7)) }

abbrev replies : Api
replies r = some seven

abbrev web_status : Status
web_status = record { id = pos 7; spec = web }

idle-Inv : Inv idle
unfolding lookup
idle-Inv j st h = absurd (ground arith)

added : (add_port net replies web idle).1 ≡ ok web_status
unfolding add_port request_forward guest_addr read_id validate_port_spec find_conflict
    validate_proto resolve has_suffix trim_suffix to4
added = refl

slirp_add_example :
    (lookup (pos 7) idle.ports ≡ none)
    × (web_status.spec ≡ web)
    × (lookup (pos 8) (add_port net replies web idle).0.ports
        ≡ (if eq_ℤ (pos 7) (pos 8) then some web_status else lookup (pos 8) idle.ports))
    × Inv (add_port net replies web idle).0
unfolding lookup
slirp_add_example = slirp_add net replies web idle web_status (pos 8) idle-Inv no_ids added
  where
    no_ids :
        (r : _) (rep : Reply) (id : ℤ)
        → replies r ≡ some rep
        → rep.return_id ≡ some (number id)
        → lookup id idle.ports ≡ none
    no_ids r rep id e f = refl

refused : (add_port net (λ r. none) web idle).1 ≡ err api_failed
unfolding add_port request_forward guest_addr read_id validate_port_spec find_conflict
    validate_proto resolve has_suffix trim_suffix to4
refused = refl
