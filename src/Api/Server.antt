-- ===== src/Api/Server.antt =====
-- The server of the API: `AddRoutes` of pkg/api/router/router.go under gorilla's mux.
use rootlesskit.Base.{◌≡◌, ◌≢◌, false, Option, none, some, [], ◌++◌}
use rootlesskit.Text.{Bytes}
use rootlesskit.Text.Search.{contains}
use rootlesskit.Port.Manager.{Manager}
use rootlesskit.Api.{Json}
use rootlesskit.Api.Http.{Writer, new_writer, Response, respond}
use rootlesskit.Api.Router.{
  Backend, Route, get_ports, post_ports, delete_port, get_info, route_of, Request, handle_get_ports,
  handle_post_port, handle_delete_port, handle_get_info,
}

-- gorilla's mux with the routes of `AddRoutes`: the route and its variable for a method and a
-- path, and the answer where there is none.
pub record Mux : Type 0 where
  pub matched : Bytes → Bytes → Option (Route × Option Bytes)
  pub unmatched : Response

-- What the mux documents: a path that is a template matches it, and {id} stands for one segment.
pub record MuxLaws (mux : Mux) : Type 0 where
  pub plain :
      (r : Route) → r ≢ delete_port → mux.matched (route_of r).0 (route_of r).1 ≡ some (r, none)
  pub with_id :
      (id : Bytes)
      → id ≢ []
      → contains id b'/' ≡ false
      → mux.matched (route_of delete_port).0 ((route_of delete_port).1 ++ id)
        ≡ some (delete_port, some id)

module _ {S AddEnv RemoveEnv AddError RemoveError : Type 0}
    (m : Manager S AddEnv RemoveEnv AddError RemoveError) (b : Backend AddError RemoveError)
    (json : Json) (mux : Mux) (version : Bytes) where
  unfoldable pub handle :
      AddEnv → RemoveEnv → Request → Route → Option Bytes → S → Writer → S × Writer
  handle add_env remove_env req get_ports id s w = (s, handle_get_ports m b json s w)
  handle add_env remove_env req post_ports id s w = handle_post_port m b json add_env req.body s w
  handle add_env remove_env req delete_port id s w = handle_delete_port m b json remove_env id s w
  handle add_env remove_env req get_info id s w = (s, handle_get_info m b json version w)

  answer : S × Writer → S × Response
  answer (s, w) = (s, respond w)

  -- A request at the server.
  unfoldable pub serve : AddEnv → RemoveEnv → Request → S → S × Response
  unfolding handle answer
  serve add_env remove_env req s = elim (mux.matched req.method req.path) [
    | none ↦ (s, mux.unmatched)
    | some (r, id) ↦ answer (handle add_env remove_env req r id s new_writer)
  ]
