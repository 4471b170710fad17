-- ===== src/Api/Transparent.antt =====
-- The client of the API, talking to the server, is the port manager that the server drives.
use rootlesskit.Base.{
  length, ◌==◌, lt→ltb, ℤ, ℕ, ◌/◌, ◌<◌, ◌≡◌, refl, ◌≢◌, true, false, Option, none, some, [], ◌∷◌,
  arith, ok, err, take-all,
}
use rootlesskit.Text.Decimal.{InRange, itoa, itoa-ne-nil, itoa-without, atoi-itoa}
use rootlesskit.Text.{Bytes, codes, is_empty}
use rootlesskit.Port.{Spec, Status}
use rootlesskit.Port.Manager.{Manager}
use rootlesskit.Api.{Json, Carries}
use rootlesskit.Api.Http.{
  new_writer, Response, respond, write_header, write_json, write_error, HttpStatusError, successful,
  error_message, max_error_body, json_type,
}
use rootlesskit.Api.Router.{
  Backend, post_ports, handle_post_port, handle_delete_port, handle_get_ports, get_ports,
}
use rootlesskit.Api.Server.{Mux, MuxLaws, serve}
use rootlesskit.Api.Client
use rootlesskit.Api.Client.{Do, read_response, http_failed}

-- An error text comes through: the client's error has it as its message.
abbrev pub Reports : Json → Bytes → Client.Error → Type 0
Reports json text e =
    (h : HttpStatusError) × (e ≡ http_failed h) × (error_message json h ≡ some text)

-- A text that fits into the body of an error.
abbrev pub FitsError : Json → Bytes → Type 0
FitsError json text =
    (b : Bytes) × (json.error.marshal text ≡ some b)
    × (json.error.unmarshal b ≡ some text)
    × (b ≢ [])
    × (length b < max_error_body)

not-is_empty : (b : Bytes) → b ≢ [] → is_empty b ≡ false
not-is_empty [] h = absurd (h refl)
not-is_empty (c ∷ b) h = refl

-- The response of `WriteError` with status 400.
error_response :
    (json : Json) (text b : Bytes)
    → json.error.marshal text ≡ some b
    → respond (write_error json text 400 new_writer)
      ≡ record { code = 400; content_type = none; body = b }
unfolding respond write_error write_header
error_response json text b written = rw written

-- `WriteError` with status 400, read by the client.
error_read {ℓ} :
    {A : Type ℓ} (json : Json) (text : Bytes) (decode : Bytes → Option A)
    → FitsError json text
    → (e : Client.Error) × (read_response decode
          (some (respond (write_error json text 400 new_writer)))
        ≡ err e)
      × Reports json text e
unfolding read_response successful error_message
error_read json text decode (b, written, read, ne, short) = (
  http_failed (record { status_code = 400; body = b }),
  rw (error_response json text b written, take-all b max_error_body (omega arith)),
  (record { status_code = 400; body = b }, refl, rw (not-is_empty b ne, lt→ltb _ _ short) read),
)

-- A response of the server with a JSON body, read by the client.
json_response :
    (code : ℕ) (b : Bytes)
    → respond (write_json code b new_writer)
      ≡ record { code = code; content_type = some json_type; body = b }
unfolding respond write_json write_header
json_response code b = refl

abbrev accept_any : Bytes → Option (Unit {0})
accept_any b = some tt

abbrev deliver {ℓ} : {S : Type ℓ} → S × Response → S × Option Response
deliver (s, r) = (s, some r)

-- A response with a JSON body, read by the client.
json_read {ℓ} :
    {A : Type ℓ} (code : ℕ) (b : Bytes) (decode : Bytes → Option A) (a : A)
    → (code / 100 == 2) ≡ true
    → decode b ≡ some a
    → read_response decode (some (respond (write_json code b new_writer))) ≡ ok a
unfolding read_response successful
json_read code b decode a two read = rw (json_response code b, two, read)

module _ {S AddEnv RemoveEnv AddError RemoveError : Type 0}
    (m : Manager S AddEnv RemoveEnv AddError RemoveError) (b : Backend AddError RemoveError)
    (json : Json) (mux : Mux) (version : Bytes) (add_env : AddEnv) (remove_env : RemoveEnv) where
  -- The HTTP transport delivers each request to the server, and its response back.
  abbrev pub delivered : Do S
  delivered req s = deliver (serve m b json mux version add_env remove_env req s)

  module _ (gorilla : MuxLaws mux) (driven : b.has_port_driver ≡ true) where
    post_ok :
        (t u : Bytes) (spec : Spec) (s s' : S) (st : Status)
        → json.spec.unmarshal t ≡ some spec
        → m.add add_env spec s ≡ (s', ok st)
        → json.status.marshal st ≡ some u
        → serve m b json mux version add_env remove_env
            (Client.request (codes "POST") Client.ports_path t)
            s
          ≡ (s', respond (write_json 201 u new_writer))
    unfolding serve handle_post_port
    post_ok t u spec s s' st read e out =
        rw (gorilla.plain post_ports (ground arith), serve) (rw (driven, read, e, out))

    post_err :
        (t : Bytes) (spec : Spec) (s s' : S) (x : AddError)
        → json.spec.unmarshal t ≡ some spec
        → m.add add_env spec s ≡ (s', err x)
        → serve m b json mux version add_env remove_env
            (Client.request (codes "POST") Client.ports_path t)
            s
          ≡ (s', respond (write_error json (b.add_text x) 400 new_writer))
    unfolding serve handle_post_port
    post_err t spec s s' x read e =
        rw (gorilla.plain post_ports (ground arith), serve) (rw (driven, read, e))

    delete_ok :
        (id : ℤ) (s s' : S)
        → InRange id
        → m.remove remove_env id s ≡ (s', ok tt)
        → serve m b json mux version add_env remove_env
            (Client.request (codes "DELETE") (Client.port_path id) [])
            s
          ≡ (s', respond (write_header 200 new_writer))
    unfolding serve handle_delete_port
    delete_ok id s s' range e =
        rw
          (
            gorilla.with_id (itoa id) (itoa-ne-nil id) (itoa-without id b'/' refl (ground arith)),
            serve,
          )
          (rw (driven, atoi-itoa id range, e))

    delete_err :
        (id : ℤ) (s s' : S) (x : RemoveError)
        → InRange id
        → m.remove remove_env id s ≡ (s', err x)
        → serve m b json mux version add_env remove_env
            (Client.request (codes "DELETE") (Client.port_path id) [])
            s
          ≡ (s', respond (write_error json (b.remove_text x) 400 new_writer))
    unfolding serve handle_delete_port
    delete_err id s s' x range e =
        rw
          (
            gorilla.with_id (itoa id) (itoa-ne-nil id) (itoa-without id b'/' refl (ground arith)),
            serve,
          )
          (rw (driven, atoi-itoa id range, e))

    get_ok :
        (u : Bytes) (s : S)
        → json.statuses.marshal (m.list s) ≡ some u
        → serve m b json mux version add_env remove_env
            (Client.request (codes "GET") Client.ports_path [])
            s
          ≡ (s, respond (write_json 200 u new_writer))
    unfolding serve handle_get_ports
    get_ok u s out = rw (gorilla.plain get_ports (ground arith), serve) (rw (driven, out))

    -- With a port driver and a mux that keeps its laws, where the driver adds the port, AddPort
    -- through the API returns its status and leaves the driver as it does, if JSON carries the
    -- specification and the status.
    pub api_add :
        (spec : Spec) (s s' : S) (st : Status)
        → Carries json.spec spec
        → Carries json.status st
        → m.add add_env spec s ≡ (s', ok st)
        → Client.add_port json delivered spec s ≡ (s', ok st)
    unfolding Client.add_port
    api_add spec s s' st (t, written, read) (u, out, back) e =
        rw (written, post_ok t u spec s s' st read e out, json_read 201 u _ st refl back)

    -- With a port driver and a mux that keeps its laws, where the driver refuses the port,
    -- AddPort through the API fails with the driver's text as its message and leaves the driver
    -- as it does, if JSON carries the specification, and the text in a short body.
    pub api_add_failed :
        (spec : Spec) (s s' : S) (x : AddError)
        → Carries json.spec spec
        → FitsError json (b.add_text x)
        → m.add add_env spec s ≡ (s', err x)
        → (e : Client.Error) × (Client.add_port json delivered spec s ≡ (s', err e))
          × Reports json (b.add_text x) e
    unfolding Client.add_port
    api_add_failed spec s s' x (t, written, read) fits e =
        let (f, result, reports) = error_read json (b.add_text x) json.status.unmarshal fits in
        (f, rw (written, post_err t spec s s' x read e, result), reports)

    -- RemovePort through the API succeeds where the driver does, and leaves the driver as it does.
    pub api_remove :
        (id : ℤ) (s s' : S)
        → InRange id
        → m.remove remove_env id s ≡ (s', ok tt)
        → Client.remove_port json delivered id s ≡ (s', ok tt)
    unfolding Client.remove_port read_response successful respond write_header
    api_remove id s s' range e = rw (delete_ok id s s' range e)

    -- With a port driver and a mux that keeps its laws, where the driver does not remove the
    -- port, RemovePort through the API fails with the driver's text as its message and leaves the
    -- driver as it does, if the ID is an `int` and JSON carries the text in a short body.
    pub api_remove_failed :
        (id : ℤ) (s s' : S) (x : RemoveError)
        → InRange id
        → FitsError json (b.remove_text x)
        → m.remove remove_env id s ≡ (s', err x)
        → (e : Client.Error) × (Client.remove_port json delivered id s ≡ (s', err e))
          × Reports json (b.remove_text x) e
    unfolding Client.remove_port
    api_remove_failed id s s' x range fits e =
        let (f, result, reports) = error_read {0} json (b.remove_text x) accept_any fits in
        (f, rw (delete_err id s s' x range e, result), reports)

    -- With a port driver and a mux that keeps its laws, ListPorts through the API returns the
    -- driver's list and changes nothing, if JSON carries the list.
    pub api_list :
        (s : S)
        → Carries json.statuses (m.list s)
        → Client.list_ports json delivered s ≡ (s, ok (m.list s))
    unfolding Client.list_ports
    api_list s (u, out, back) = rw (get_ok u s out, json_read 200 u _ (m.list s) refl back)
