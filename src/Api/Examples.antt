-- ===== src/Api/Examples.antt =====
-- Tests of the API over the builtin driver. The codec of each type carries one value, and an error
-- is its own text.
use rootlesskit.Base.{
  if◌then◌else◌, pos, ◌≡◌, refl, ◌≢◌, true, Option, none, some, [], arith, ok, err,
}
use rootlesskit.Text.{Bytes, codes, str_eq}
use rootlesskit.Text.Search.{has_prefix, trim_prefix}
use rootlesskit.Port.Table.{lookup, Same, delete}
use rootlesskit.Port.Examples.{net, web}
use rootlesskit.Builtin
use rootlesskit.Builtin.{
  Driver, new_driver, StopError, unknown, run_failed, stopped, Env, Stopping, remove_port,
  routine_stop,
}
use rootlesskit.Builtin.Manager.{manager, manager-laws, new_driver-Inv}
use rootlesskit.Builtin.Examples.{listening, web_status, with_web, added}
use rootlesskit.Api.{Codec, Json, Carries, Info}
use rootlesskit.Api.Router.{Backend, Route, get_ports, post_ports, delete_port, get_info, route_of}
use rootlesskit.Api.Server.{Mux, MuxLaws}
use rootlesskit.Api.Client
use rootlesskit.Api.Transparent.{delivered}
use rootlesskit.Api.Effects.{api-add-remove}

abbrev only : {A : Type 0} → A → Codec A
only a = record { marshal = λ x. some (codes "{}"); unmarshal = λ b. some a }

abbrev no_info : Info
no_info = record {
  api_version = [];
  version = [];
  state_dir = [];
  child_pid = pos 0;
  network_driver = none;
  port_driver = none;
}

abbrev json : Json
json = record {
  spec = only web;
  status = only web_status;
  statuses = only [];
  info = only no_info;
  error = record { marshal = some; unmarshal = some };
  marshal_text = codes "json";
  decode_text = λ b. codes "json";
}

abbrev backend : Backend Builtin.Error StopError
backend = record {
  state_dir = codes "/run";
  child_pid = pos 42;
  network_info = none;
  has_port_driver = true;
  port_info = err (codes "none");
  add_text = λ e. codes "not added";
  remove_text = λ e. codes "not removed";
  atoi_text = λ s. codes "invalid syntax";
}

matched_get : Bytes → Option (Route × Option Bytes)
matched_get path =
    if str_eq path (codes "/v1/ports")
    then some (get_ports, none)
    else if str_eq path (codes "/v1/info")
    then some (get_info, none)
    else none

matched : Bytes → Bytes → Option (Route × Option Bytes)
unfolding matched_get
matched method path =
    if str_eq method (codes "GET")
    then matched_get path
    else if str_eq method (codes "POST")
    then some (post_ports, none)
    else if has_prefix path (codes "/v1/ports/")
    then some (delete_port, some (trim_prefix path (codes "/v1/ports/")))
    else none

abbrev mux : Mux
unfolding matched
mux = record {
  matched = matched;
  unmatched = record { code = 404; content_type = none; body = [] };
}

matched-plain :
    (r : Route) → r ≢ delete_port → matched (route_of r).0 (route_of r).1 ≡ some (r, none)
unfolding matched has_prefix str_eq
matched-plain get_ports h = refl
matched-plain post_ports h = refl
matched-plain get_info h = refl
matched-plain delete_port h = absurd (h refl)

mux-MuxLaws : MuxLaws mux
unfolding matched has_prefix trim_prefix str_eq
mux-MuxLaws = record { plain = matched-plain; with_id = λ id h k. refl }

abbrev calls : Env → Client.Do Driver
calls env = delivered (manager net) backend json mux [] env (stopped none)

web-Carries : Carries json.spec web
web-Carries = (codes "{}", refl, refl)

web_status-Carries : Carries json.status web_status
web_status-Carries = (codes "{}", refl, refl)

removed :
    remove_port (stopped none) (pos 1) with_web ≡ (record new_driver { next_id = pos 2 }, ok tt)
unfolding remove_port delete routine_stop lookup
removed = refl

unknown_port : remove_port (stopped none) (pos 5) with_web ≡ (with_web, err (unknown (pos 5)))
unfolding remove_port delete routine_stop lookup
unknown_port = refl

api-add-remove_example :
    (Client.add_port json (calls listening) web new_driver ≡ (with_web, ok web_status))
    × (Client.remove_port json (calls listening) (pos 1) with_web
        ≡ (record new_driver { next_id = pos 2 }, ok tt))
    × Same [] new_driver.ports
api-add-remove_example =
    api-add-remove (manager-laws net) backend json mux [] listening (stopped none) web new_driver
      with_web (record new_driver { next_id = pos 2 }) web_status mux-MuxLaws refl web-Carries
      web_status-Carries (ground arith) new_driver-Inv (ground arith) added removed
