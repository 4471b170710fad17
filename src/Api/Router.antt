-- ===== src/Api/Router.antt =====
-- pkg/api/router/router.go: the handlers over any port manager.
use rootlesskit.Base.{
  if◌then◌else◌, ℤ, ℕ, Bool, true, false, Option, none, some, ◌++◌, Result, ok, err, ◌>>=◌,
}
use rootlesskit.Text.{Bytes, codes}
use rootlesskit.Text.Decimal.{atoi}
use rootlesskit.Port.{Spec, Status}
use rootlesskit.Port.Manager.{Manager}
use rootlesskit.Api.{NetworkDriverInfo, PortDriverInfo, Info, Json}
use rootlesskit.Api.Http.{Writer, write_header, write_json, write_error}

-- What the handlers need: the directory and PID, the drivers' `Info` (no driver is `none`), and
-- the texts of errors.
pub record Backend (AddError RemoveError : Type 0) : Type 0 where
  pub state_dir : Bytes
  pub child_pid : ℤ
  pub network_info : Option (Result Bytes NetworkDriverInfo)
  pub has_port_driver : Bool
  pub port_info : Result Bytes PortDriverInfo
  pub add_text : AddError → Bytes
  pub remove_text : RemoveError → Bytes
  -- The text of the error of `strconv.Atoi`.
  pub atoi_text : Bytes → Bytes

-- The routes of `AddRoutes`.
pub data Route : Type 0 where
  get_ports post_ports delete_port get_info : Route

-- Method and path of a route; the ID is the rest of the path.
abbrev pub route_of : Route → Bytes × Bytes
route_of get_ports = (codes "GET", codes "/v1/ports")
route_of post_ports = (codes "POST", codes "/v1/ports")
route_of delete_port = (codes "DELETE", codes "/v1/ports/")
route_of get_info = (codes "GET", codes "/v1/info")

pub record Request : Type 0 where
  pub method : Bytes
  pub path : Bytes
  pub body : Bytes

module _ {S AddEnv RemoveEnv AddError RemoveError : Type 0}
    (m : Manager S AddEnv RemoveEnv AddError RemoveError) (b : Backend AddError RemoveError)
    (json : Json) where
  on_port_driver_nil : Writer → Writer
  on_port_driver_nil = write_error json (codes "no PortDriver is available") 400

  write_marshalled : ℕ → Option Bytes → Writer → Writer
  write_marshalled code none w = write_error json json.marshal_text 500 w
  write_marshalled code (some t) w = write_json code t w

  -- `GetPorts`. The port managers return no error from ListPorts.
  unfoldable pub handle_get_ports : S → Writer → Writer
  unfolding on_port_driver_nil write_marshalled
  handle_get_ports s w =
      if b.has_port_driver
      then write_marshalled 200 (json.statuses.marshal (m.list s)) w
      else on_port_driver_nil w

  post_result : S × Result AddError Status → Writer → S × Writer
  post_result (s, ok st) w = (s, write_marshalled 201 (json.status.marshal st) w)
  post_result (s, err e) w = (s, write_error json (b.add_text e) 400 w)

  post_decoded : AddEnv → Bytes → Option Spec → S → Writer → S × Writer
  post_decoded env body none s w = (s, write_error json (json.decode_text body) 400 w)
  post_decoded env body (some spec) s w = post_result (m.add env spec s) w

  -- `PostPort`.
  unfoldable pub handle_post_port : AddEnv → Bytes → S → Writer → S × Writer
  unfolding on_port_driver_nil post_decoded post_result write_marshalled
  handle_post_port env body s w =
      if b.has_port_driver
      then post_decoded env body (json.spec.unmarshal body) s w
      else (s, on_port_driver_nil w)

  delete_result : S × Result RemoveError (Unit {0}) → Writer → S × Writer
  delete_result (s, ok _) w = (s, write_header 200 w)
  delete_result (s, err e) w = (s, write_error json (b.remove_text e) 400 w)

  delete_at : RemoveEnv → Bytes → Option ℤ → S → Writer → S × Writer
  delete_at env text none s w =
      (s, write_error json (codes "bad id " ++ (text ++ (codes ": " ++ b.atoi_text text))) 400 w)
  delete_at env text (some id) s w = delete_result (m.remove env id s) w

  -- The variable "id" of the route, if there is one.
  delete_var : RemoveEnv → Option Bytes → S → Writer → S × Writer
  delete_var env none s w = (s, write_error json (codes "id not specified") 400 w)
  delete_var env (some id) s w = delete_at env id (atoi id) s w

  -- `DeletePort`.
  unfoldable pub handle_delete_port : RemoveEnv → Option Bytes → S → Writer → S × Writer
  unfolding on_port_driver_nil delete_var delete_at delete_result
  handle_delete_port env id s w =
      if b.has_port_driver then delete_var env id s w else (s, on_port_driver_nil w)

  -- The driver infos of `GetInfo`: an error ends the handler.
  network_part : Option (Result Bytes NetworkDriverInfo) → Result Bytes (Option NetworkDriverInfo)
  network_part none = ok none
  network_part (some (ok i)) = ok (some i)
  network_part (some (err e)) = err e

  port_part : Bool → Result Bytes PortDriverInfo → Result Bytes (Option PortDriverInfo)
  port_part false r = ok none
  port_part true (ok i) = ok (some i)
  port_part true (err e) = err e

  unfoldable pub collect_info : Bytes → Result Bytes Info
  unfolding network_part port_part
  collect_info version = do
    nd ← network_part b.network_info
    pd ← port_part b.has_port_driver b.port_info
    ok (record {
      api_version = codes "1.1.1";
      version = version;
      state_dir = b.state_dir;
      child_pid = b.child_pid;
      network_driver = nd;
      port_driver = pd;
    })

  info_result : Result Bytes Info → Writer → Writer
  info_result (ok i) w = write_marshalled 200 (json.info.marshal i) w
  info_result (err e) w = write_error json e 500 w

  -- `GetInfo`.
  unfoldable pub handle_get_info : Bytes → Writer → Writer
  unfolding info_result write_marshalled
  handle_get_info version w = info_result (collect_info version) w
