-- ===== src/Lua/Binding.antt =====
-- A script and its run, ezp_lua/binding.go.
use Prim.Native.String.{String}
use ezproxy.Base.{ℕ, Bool, true, false, Option, none, some, List, [], ◌∷◌, ltb, ◌==◌, if◌then◌else◌}
use ezproxy.Errors.{Error, no_main, bad_main, done_running}
use ezproxy.Context.{with_cancel, cancel}
use ezproxy.Handler.State.{Bytes, Spawner}
use ezproxy.Lua.Values.{Value, Checks, Outcome, nothing, raised}
use ezproxy.Lua.Spawner.{LuaSpawner, fresh_lua_spawner}
use ezproxy.Lua.Callback.{Globals, as_function, Event, runs, returns, run_lua_callback}

-- LuaRunModes
pub data Mode : Type 0 where
  run_main run_callback : Mode
  unknown : ℕ → Mode

-- LuaRunModes.String; none is the text for an unknown mode.
unfoldable pub mode_string : Mode → Option String
mode_string run_main = some "LuaRunMain"
mode_string run_callback = some "LuaRunCallback"
mode_string (unknown n) = none

-- bindSleep: the milliseconds that it sleeps, if it does not raise. A negative int is a pattern from
-- 2^63 on.
unfoldable pub bind_sleep : Checks → List Value → Outcome × Option ℕ
bind_sleep lua (v ∷ []) = elim (lua.check_int v) [
  | none ↦ (raised, none)
  | some ms ↦ if ltb ms 0x8000_0000_0000_0000 then (nothing, some ms) else (raised, none)
]
bind_sleep lua _ = (raised, none)

-- The levels of bindLog
pub data Level : Type 0 where
  debug info warn error : Level

abbrev level_of : ℕ → Option Level
level_of n =
    if n == 0
    then some debug
    else if n == 1
    then some info
    else if n == 2
    then some warn
    else if n == 3
    then some error
    else none

-- bindLog: what it logs, if it does not raise.
unfoldable pub bind_log : Checks → List Value → Outcome × Option (Level × Bytes)
bind_log lua (v ∷ w ∷ []) = elim (lua.check_int v) [
  | none ↦ (raised, none)
  | some n ↦ elim (lua.check_string w) [
    | none ↦ (raised, none)
    | some msg ↦ elim (level_of n) [ none ↦ (raised, none) | some l ↦ (nothing, some (l, msg)) ]
  ]
]
bind_log lua _ = (raised, none)

abbrev cancel_with : ℕ → Error → Spawner → Spawner
cancel_with c e p = record p { contexts = cancel p.contexts c e }

-- runMain: `call` is the call of EzpMain, its error and what it does to the spawner.
unfoldable pub run_main_of :
    Globals → (ℕ → Spawner → Option Error × Spawner) → ℕ → Spawner → Spawner
run_main_of globals call c p = elim (globals "EzpMain") [
  | none ↦ cancel_with c no_main p
  | some v ↦ elim (as_function (some v)) [
    | none ↦ cancel_with c bad_main p
    | some f ↦ let (r, q) = call f p in elim r [ none ↦ q | some e ↦ cancel_with c e q ]
  ]
]

-- runCallbacks: none while it still runs.
unfoldable pub run_callbacks : Globals → ℕ → ℕ → List Event → Spawner → Option Spawner
unfolding run_lua_callback
run_callbacks globals cb c es p = elim (run_lua_callback globals cb c es p) [
  | runs ↦ none
  | returns r q ↦ elim r [
    | some e ↦ some (cancel_with c e q)
    | none ↦ some (cancel_with c done_running q)
  ]
]

-- How run goes: it returns, still runs, or panics.
pub data Ran : Type 0 where
  over : Spawner → Ran
  going panics : Ran

abbrev of_callbacks : Option Spawner → Ran
of_callbacks none = going
of_callbacks (some p) = over p

-- run; `loads` says that DoFile succeeds.
unfoldable pub run :
    Bool → Mode → Globals → (ℕ → Spawner → Option Error × Spawner) → ℕ → List Event → Spawner → Ran
unfolding run_main_of run_callbacks
run false mode globals call cb es p = over p
run true mode globals call cb es p =
    let (contexts, c) = with_cancel p.contexts p.context in
    let q : Spawner = record p { contexts = contexts } in
    elim mode [
      | run_main ↦ over (run_main_of globals call c q)
      | run_callback ↦ of_callbacks (run_callbacks globals cb c es q)
      | unknown n ↦ panics
    ]

-- luaBindings
pub record LuaBindings : Type 0 where
  pub spawner : LuaSpawner
  pub execution_mode : Mode
  pub path : String

-- NewLuaBindingFromFile, up to the start of its goroutine
unfoldable pub new_lua_binding_from_file : String → Mode → LuaBindings
unfolding fresh_lua_spawner
new_lua_binding_from_file path mode = record {
  spawner = fresh_lua_spawner;
  execution_mode = mode;
  path = path;
}
