-- ===== src/Api/Effects.antt =====
-- What the calls of the API do to the ports, for every port manager that keeps its promises.
use rootlesskit.Base.{Option-cases, eq_ℤ_iff, ℕ, ◌≡◌, true, none, arith, ok}
use rootlesskit.Text.{Bytes}
use rootlesskit.Text.Decimal.{InRange}
use rootlesskit.Port.{Spec, Status}
use rootlesskit.Port.Table.{Same}
use rootlesskit.Port.Manager.{Manager, ManagerLaws}
use rootlesskit.Api.{Json, Carries}
use rootlesskit.Api.Http.{new_writer, respond, write_error, write_header}
use rootlesskit.Api.Router.{Backend}
use rootlesskit.Api.Server.{Mux, MuxLaws}
use rootlesskit.Api.Client
use rootlesskit.Api.Transparent

-- A response of WriteError on a new writer has the given status and no Content-Type, since the
-- header is set after the status line.
pub write_error_type :
    (json : Json) (text : Bytes) (ec : ℕ)
    → ((respond (write_error json text ec new_writer)).code ≡ ec)
      × ((respond (write_error json text ec new_writer)).content_type ≡ none)
unfolding respond write_error write_header
write_error_type json text ec = ground (arith, Option-cases (json.error.marshal text))

module _ {S AddEnv RemoveEnv AddError RemoveError : Type 0}
    {m : Manager S AddEnv RemoveEnv AddError RemoveError} {Inv : S → Type 0}
    {Fair : AddEnv → Spec → S → Type 0} (laws : ManagerLaws m Inv Fair) where
  -- Adding a port and removing it again gives back the table.
  pub add-remove-Same :
      (add_env : AddEnv) (remove_env : RemoveEnv) (spec : Spec) (s s' s'' : S) (st : Status)
      → Inv s
      → Fair add_env spec s
      → m.add add_env spec s ≡ (s', ok st)
      → m.remove remove_env st.id s' ≡ (s'', ok tt)
      → Same (m.ports s'') (m.ports s)
  add-remove-Same add_env remove_env spec s s' s'' st v fair e f j = ground (
    arith,
    laws.add_fresh add_env spec s st v fair,
    laws.add_lookup add_env spec s st j,
    laws.remove_lookup remove_env st.id j s',
    eq_ℤ_iff st.id j,
  )

  -- Through the API, over a port manager that keeps its laws and in a state that meets its
  -- invariant and its needs: where the driver adds the port and then removes it under the ID that
  -- the client was given, an `int`, both calls of the client succeed and every entry is as
  -- before, if the mux keeps its laws and JSON carries the specification and the status.
  pub api-add-remove :
      (b : Backend AddError RemoveError) (json : Json) (mux : Mux) (version : Bytes)
      (add_env : AddEnv) (remove_env : RemoveEnv) (spec : Spec) (s s' s'' : S) (st : Status)
      → MuxLaws mux
      → b.has_port_driver ≡ true
      → Carries json.spec spec
      → Carries json.status st
      → InRange st.id
      → Inv s
      → Fair add_env spec s
      → m.add add_env spec s ≡ (s', ok st)
      → m.remove remove_env st.id s' ≡ (s'', ok tt)
      → let calls = Transparent.delivered m b json mux version add_env remove_env in
        (Client.add_port json calls spec s ≡ (s', ok st))
        × (Client.remove_port json calls st.id s' ≡ (s'', ok tt))
        × Same (m.ports s'') (m.ports s)
  api-add-remove b json mux version add_env remove_env spec s s' s'' st gorilla driven c c' range v
        fair e f =
      (
        Transparent.api_add m b json mux version add_env remove_env gorilla driven spec s s' st c c'
            e,
        Transparent.api_remove m b json mux version add_env remove_env gorilla driven st.id s' s''
            range f,
        add-remove-Same add_env remove_env spec s s' s'' st v fair e f,
      )
