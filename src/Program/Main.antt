-- ===== src/Program/Main.antt =====
-- The two programs: main_lua.go and main_no_lua.go, with setupLogger and run of helpers.go.
pub mod Laws
use Prim.Native.String.{String}
use ezproxy.Base.{ℕ, Bool, true, false, Option, none, some, List, if◌then◌else◌, ◌>>=◌}
use ezproxy.Errors.{Error}
use ezproxy.Context.{Contexts, is_done}
use ezproxy.Handler.State.{Spawner}
use ezproxy.Handler.Listener.{Listener}
use ezproxy.Lua.Binding.{LuaBindings, new_lua_binding_from_file}
use ezproxy.Api.Server.{WebApi}
use ezproxy.Config.{ConfigData, level_to_slog}
use ezproxy.Program.{Resolve, Setup, panics, fails, made, load_cfg, lua_mode, setup_spawner_and_api}

-- setupLogger; `opens` is how OpenFile goes. It panics without a file, without a configuration and with
-- an unknown level.
unfoldable pub setup_logger : Option Error → Option ConfigData → Option ConfigData
setup_logger (some e) c = none
setup_logger none c = c >>= λ c. level_to_slog c.logging >>= λ l. some c

-- How main goes: a panic, an early return, or run of its spawner.
pub data Main : Type 0 where
  crashes exits : Main
  runs : Spawner → Option WebApi → Option LuaBindings → Main

-- run: whether it returns by now. Without a spawner it panics.
unfoldable pub run : Spawner → Bool
run p = is_done p.contexts p.context

-- What main does with what setupSpawnerAndApi returns.
unfoldable pub run_setup : Setup → Option LuaBindings → Main
run_setup panics b = crashes
run_setup fails b = crashes
run_setup (made p w) b = runs p w b

-- main of main_no_lua.go, after setupLogger
unfoldable pub main_no_lua : Option ConfigData → (ConfigData → Setup) → Main
unfolding run_setup
main_no_lua none setup = crashes
main_no_lua (some c) setup = run_setup (setup c) none

-- The script, if there is one, and run. Without a mode main returns, whatever the setup was.
unfoldable pub with_lua : ConfigData → Setup → Main
unfolding run_setup lua_mode new_lua_binding_from_file
with_lua c panics = crashes
with_lua c s =
    if c.lua.enable
    then elim (lua_mode c.lua) [
      | none ↦ exits
      | some mode ↦ run_setup s (some (new_lua_binding_from_file c.lua.path mode))
    ]
    else run_setup s none

-- main of main_lua.go, after setupLogger
unfoldable pub main_lua : Option ConfigData → (ConfigData → Setup) → Main
unfolding with_lua
main_lua none setup = crashes
main_lua (some c) setup = with_lua c (setup c)

-- The program with Lua (true) or without: what os.ReadFile and yaml.Unmarshal give, how OpenFile goes, and
-- the arguments of setupSpawnerAndApi.
unfoldable pub main :
    Bool
    → Option ConfigData
    → Option Error
    → Option String
    → Resolve
    → List Listener
    → (Spawner → Spawner)
    → ℕ
    → ℕ
    → ℕ
    → Contexts
    → Main
unfolding setup_logger load_cfg main_lua main_no_lua setup_spawner_and_api
main lua file opens local resolve listeners meanwhile log api_ctx ctx s =
    let c = setup_logger opens (load_cfg file) in
    let setup : ConfigData → Setup =
      λ c. setup_spawner_and_api local resolve c listeners meanwhile log api_ctx ctx s in
    if lua then main_lua c setup else main_no_lua c setup
