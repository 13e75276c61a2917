-- ===== src/Program.antt =====
-- How the program starts: helpers.go, main_lua.go and main_no_lua.go.
pub mod Laws
pub mod Main
use Prim.Native.String.{String}
use text.Mathlib.Text.{◌==◌ as str_eq}
use ezproxy.Base.{
  ℕ, Bool, true, false, ◌&&◌, Option, none, some, List, [], ◌∷◌, if◌then◌else◌, ◌>>=◌,
}
use ezproxy.Errors.{Error, Result, ok, err}
use ezproxy.Context.{Contexts}
use ezproxy.Handler.State.{Addr, Spawner}
use ezproxy.Handler.Listener.{Listener}
use ezproxy.Handler.Lifecycle.{new_proxy_spawner, set_error_callback}
use ezproxy.Api.Perms.{auth_all}
use ezproxy.Api.Auth.{Keys, add_auth}
use ezproxy.Api.Server.{WebApi, new_web_api}
use ezproxy.Lua.Binding.{Mode, run_main, run_callback}
use ezproxy.Config.{ConfigAddress, ConfigLua, ConfigData, config_is_empty, level_to_slog}

-- ConfigAddress.ToString, as host and port; `local` is the host of getLocalIp, and none is a panic.
unfoldable pub to_string : Option String → ConfigAddress → Option (String × ℕ)
to_string local c =
    if str_eq c.address "" then (local >>= λ ip. some (ip, c.port)) else some (c.address, c.port)

-- loadCfg: what os.ReadFile and yaml.Unmarshal give, if they succeed.
unfoldable pub load_cfg : Option ConfigData → Option ConfigData
load_cfg none = none
load_cfg (some c) = if config_is_empty c then none else some c

-- net.ResolveTCPAddr
abbrev pub Resolve : Type 0
Resolve = String × ℕ → Option Addr

-- How setupSpawnerAndApi goes: a panic, the nil that it returns after an error, or the spawner and the
-- server, if there is one.
pub data Setup : Type 0 where
  panics fails : Setup
  made : Spawner → Option WebApi → Setup

-- The debug key, which is added with AuthAll.
unfoldable pub with_debug_key : ConfigData → WebApi → Option WebApi
unfolding add_auth
with_debug_key c w =
    if c.debugging.enable && c.api.use_auth
    then elim (add_auth c.debugging.api_key (auth_all ∷ []) w.auth) [
      | err e ↦ none
      | ok keys ↦ some (record w { auth = some keys })
    ]
    else some w

-- The server, for a context of its own
unfoldable pub with_api : Option String → ConfigData → ℕ → Spawner → Setup
unfolding with_debug_key new_web_api to_string
with_api local c api_ctx p =
    if c.api.enable
    then elim (with_debug_key c (new_web_api c.api.use_auth api_ctx)) [
      | none ↦ fails
      | some w ↦ elim (to_string local c.api.address) [ none ↦ panics | some a ↦ made p (some w) ]
    ]
    else made p none

-- setupSpawnerAndApi: `ctx` is its context in the store, `log` its error callback, and `meanwhile` what
-- the listeners do before NewProxySpawner returns.
unfoldable pub setup_spawner_and_api :
    Option String
    → Resolve
    → ConfigData
    → List Listener
    → (Spawner → Spawner)
    → ℕ
    → ℕ
    → ℕ
    → Contexts
    → Setup
unfolding with_api to_string
setup_spawner_and_api local resolve c listeners meanwhile log api_ctx ctx s =
    elim (to_string local c.proxy_address) [
      | none ↦ panics
      | some a ↦ elim (resolve a) [
        | none ↦ fails
        | some proxy ↦ elim (to_string local c.server_address) [
          | none ↦ panics
          | some b ↦ elim (resolve b) [
            | none ↦ fails
            | some server ↦ elim (new_proxy_spawner server proxy ctx s listeners meanwhile) [
              | err e ↦ fails
              | ok p ↦ with_api local c api_ctx (set_error_callback (some log) p)
            ]
          ]
        ]
      ]
    ]

-- The mode of main_lua.go; none ends the program.
unfoldable pub lua_mode : ConfigLua → Option Mode
lua_mode c =
    if str_eq c.mode "main"
    then some run_main
    else if str_eq c.mode "callback"
    then some run_callback
    else none
