-- ===== src/Program/Laws.antt =====
-- Which keys the program starts with, helpers.go.
use Prim.Native.String.{String}
use ezproxy.Base.{
  ℕ, ◌≡◌, Option, none, some, List, [], ◌∷◌, if◌then◌else◌, arith, Bool-cases, Option-cases, inl,
  inr,
}
use ezproxy.Base.Maps.{lookup, insert}
use ezproxy.Errors.{Result-cases}
use ezproxy.Context.{Contexts}
use ezproxy.Handler.State.{Spawner}
use ezproxy.Handler.Listener.{Listener}
use ezproxy.Handler.Lifecycle.{new_proxy_spawner, set_error_callback}
use ezproxy.Api.Perms.{auth_all}
use ezproxy.Api.Auth.{Keys, add_auth, add_key, add_key_int}
use ezproxy.Api.Server.{WebApi, new_web_api}
use ezproxy.Config.{ConfigData}
use ezproxy.Program.{to_string, Resolve, made, with_debug_key, with_api, setup_spawner_and_api}

-- The table of keys that a configuration asks for.
abbrev pub first_keys : ConfigData → Option Keys
first_keys c =
    if c.api.use_auth
    then (if c.debugging.enable then some ((c.debugging.api_key, auth_all) ∷ []) else some [])
    else none

with_debug_key-first_keys :
    (c : ConfigData) (ctx : ℕ) (w : WebApi)
    → with_debug_key c (new_web_api c.api.use_auth ctx) ≡ some w
    → w.auth ≡ first_keys c
unfolding with_debug_key new_web_api add_auth add_key add_key_int lookup insert
with_debug_key-first_keys c ctx w e = ground arith

with_api-first_keys :
    (local : Option String) (c : ConfigData) (ctx : ℕ) (p q : Spawner) (w : WebApi)
    → with_api local c ctx p ≡ made q (some w)
    → w.auth ≡ first_keys c
unfolding with_api
with_api-first_keys local c ctx p q w e = elim (Bool-cases c.api.enable) [
  | inr f ↦ ground arith
  | inl f ↦ elim (Option-cases (with_debug_key c (new_web_api c.api.use_auth ctx))) [
    | inl g ↦ ground arith
    | inr (v, g) ↦ elim (Option-cases (to_string local c.api.address)) [
      | inl h ↦ ground arith
      | inr (a, h) ↦ ground (arith, with_debug_key-first_keys c ctx v g)
    ]
  ]
]

-- The server starts with no table of keys if authentication is off, with an empty one if it is on, and
-- with the one debug key, which has AuthAll, only if the configuration turns debugging on as well.
pub setup-first_keys :
    (local : Option String) (resolve : Resolve) (c : ConfigData) (listeners : List Listener)
    (meanwhile : Spawner → Spawner) (log api_ctx ctx : ℕ) (s : Contexts) (p : Spawner) (w : WebApi)
    → setup_spawner_and_api local resolve c listeners meanwhile log api_ctx ctx s ≡ made p (some w)
    → w.auth ≡ first_keys c
unfolding setup_spawner_and_api
setup-first_keys local resolve c listeners meanwhile log api_ctx ctx s p w e =
    elim (Option-cases (to_string local c.proxy_address)) [
      | inl f ↦ ground arith
      | inr (a, f) ↦ elim (Option-cases (resolve a)) [
        | inl g ↦ ground arith
        | inr (proxy, g) ↦ elim (Option-cases (to_string local c.server_address)) [
          | inl h ↦ ground arith
          | inr (b, h) ↦ elim (Option-cases (resolve b)) [
            | inl i ↦ ground arith
            | inr (server, i) ↦
                elim (Result-cases (new_proxy_spawner server proxy ctx s listeners meanwhile)) [
                  | inr (x, j) ↦ ground arith
                  | inl (r, j) ↦
                      with_api-first_keys local c api_ctx (set_error_callback (some log) r) p w
                        (ground arith)
                ]
          ]
        ]
      ]
    ]
