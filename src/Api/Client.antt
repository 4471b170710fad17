-- ===== src/Api/Client.antt =====
-- pkg/api/client/client.go: the client of the API. `Do` of the HTTP client is a parameter, on the
-- state of the server; a response of `none` is an error of the transport.
use rootlesskit.Base.{ℤ, Option, none, some, List, [], ◌++◌, Result, err, ◌>>◌, or_fail, wrap_err}
use rootlesskit.Text.{Bytes, codes}
use rootlesskit.Text.Decimal.{itoa}
use rootlesskit.Port.{Spec, Status}
use rootlesskit.Api.{Info, Json}
use rootlesskit.Api.Http.{Response, HttpStatusError, successful}
use rootlesskit.Api.Router.{Request}

pub data Error : Type 0 where
  marshal_failed transport_failed decode_failed : Error
  http_failed : HttpStatusError → Error

abbrev pub Do : Type 0 → Type 0
Do S = Request → S → S × Option Response

-- `httputil.Successful(resp)`, then the body is decoded.
unfoldable pub read_response {ℓ} :
    {A : Type ℓ} → (Bytes → Option A) → Option Response → Result Error A
read_response decode none = err transport_failed
read_response decode (some r) = do
  wrap_err http_failed (successful r)
  or_fail (decode r.body) decode_failed

-- The client's URL is "http://rootlesskit/v1" with these paths.
abbrev pub ports_path : Bytes
ports_path = codes "/v1/ports"

abbrev pub port_path : ℤ → Bytes
port_path id = codes "/v1/ports/" ++ itoa id

abbrev pub request : Bytes → Bytes → Bytes → Request
request method path body = record { method = method; path = path; body = body }

module _ {S : Type 0} (json : Json) (do_request : Do S) where
  finish {ℓ} : {A : Type ℓ} → (Bytes → Option A) → S × Option Response → S × Result Error A
  finish decode (s, r) = (s, read_response decode r)

  add_marshalled : Option Bytes → S → S × Result Error Status
  add_marshalled none s = (s, err marshal_failed)
  add_marshalled (some t) s =
      finish json.status.unmarshal (do_request (request (codes "POST") ports_path t) s)

  -- `AddPort`.
  unfoldable pub add_port : Spec → S → S × Result Error Status
  unfolding add_marshalled finish
  add_port spec s = add_marshalled (json.spec.marshal spec) s

  -- `ListPorts`.
  unfoldable pub list_ports : S → S × Result Error (List Status)
  unfolding finish
  list_ports s = finish json.statuses.unmarshal (do_request (request (codes "GET") ports_path []) s)

  -- `RemovePort`, which does not look at the body.
  unfoldable pub remove_port : ℤ → S → S × Result Error (Unit {0})
  unfolding finish
  remove_port id s =
      finish (λ _. some tt) (do_request (request (codes "DELETE") (port_path id) []) s)

  -- `Info`.
  unfoldable pub info : S → S × Result Error Info
  unfolding finish
  info s = finish json.info.unmarshal (do_request (request (codes "GET") (codes "/v1/info") []) s)
