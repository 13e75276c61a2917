-- ===== src/Api/Server.antt =====
-- The endpoints of the server and its own documentation, api/api.go.
use Prim.Native.String.{String}
use ezproxy.Base.{ℕ, Bool, Option, none, some, List, [], ◌∷◌, ◌++◌, if◌then◌else◌}
use ezproxy.Errors.{canceled}
use ezproxy.Context.{cancel}
use ezproxy.Handler.State.{Spawner}
use ezproxy.Api.Perms.{
  Perm, check_status, close, use_websocket, filter, inject, make_keys, duplicate_keys, code,
  check_permission,
}
use ezproxy.Api.Auth.{Keys, new_auth_lookup}
use ezproxy.Api.Session.{close as close_session}

-- apiEndpoint, without its description
pub record ApiEndpoint : Type 0 where
  pub endpoint : String
  pub version : ℕ
  pub method : String
  pub perms : ℕ

-- documentEndpoint, on the endpoints that are documented so far
abbrev pub document_endpoint : String → ℕ → String → ℕ → List ApiEndpoint → List ApiEndpoint
document_endpoint name version method perms l =
    l ++ record { endpoint = name; version = version; method = method; perms = perms } ∷ []

-- The calls of documentEndpoint in NewWebApi
abbrev pub endpoints : List ApiEndpoint
endpoints =
    let a = document_endpoint "status" 1 "GET" (code check_status) [] in
    let b = document_endpoint "proxies" 1 "GET" (code check_status) a in
    let c = document_endpoint "inject" 1 "POST" (code inject) b in
    let d = document_endpoint "newkey" 1 "GET" (code make_keys) c in
    let e = document_endpoint "keyinfo" 1 "GET" 0 d in
    document_endpoint "socket" 2 "GET" (code use_websocket) e

-- A call of addEndpoint: what a request must have to get to the handler
pub record Route : Type 0 where
  pub name : String
  pub version : ℕ
  pub method : String
  pub requires : List Perm

-- The calls of addEndpoint in NewWebApi
abbrev pub routes : List Route
routes =
    record { name = "status"; version = 1; method = "GET"; requires = check_status ∷ [] }
    ∷ record { name = "proxies"; version = 1; method = "GET"; requires = check_status ∷ [] }
    ∷ record { name = "inject"; version = 1; method = "POST"; requires = inject ∷ [] }
    ∷ record { name = "newkey"; version = 1; method = "GET"; requires = make_keys ∷ [] }
    ∷ record { name = "keyinfo"; version = 1; method = "GET"; requires = [] }
    ∷ record { name = "socket"; version = 2; method = "GET"; requires = use_websocket ∷ [] }
    ∷ []

abbrev listed : ℕ → List Perm → List Perm
listed perms [] = []
listed perms (p ∷ ps) =
    let rest = listed perms ps in if check_permission perms (code p) then p ∷ rest else rest

-- homePage: the permissions that it lists for an endpoint
unfoldable pub home_page_perms : ApiEndpoint → List Perm
home_page_perms e =
    listed e.perms
      (check_status ∷ close ∷ use_websocket ∷ filter ∷ inject ∷ make_keys ∷ duplicate_keys ∷ [])

-- WebApi: the table of keys, its context, and the WebSockets with their contexts
pub record WebApi : Type 0 where
  pub auth : Option Keys
  pub ctx : ℕ
  pub wsocks : List (ℕ × Option ℕ)

-- NewWebApi, for a context of its own
unfoldable pub new_web_api : Bool → ℕ → WebApi
new_web_api use_auth ctx = record {
  auth = if use_auth then some new_auth_lookup else none;
  ctx = ctx;
  wsocks = [];
}

abbrev close_sessions : List (ℕ × Option ℕ) → Spawner → Spawner
close_sessions [] p = p
close_sessions ((c, r) ∷ l) p = close_sessions l (close_session c r p)

-- WebApi.Close; the contexts are those of the spawner's store.
unfoldable pub close_api : WebApi → Spawner → Spawner
unfolding close_session
close_api w p = close_sessions w.wsocks (record p { contexts = cancel p.contexts w.ctx canceled })
