-- ===== src/Lua/Spawner/Packets.antt =====
-- The function get_packets of a script, ezp_lua/spawner.go.
use ezproxy.Base.{true, false, Option, none, some, List, [], ◌∷◌, ◌>>=◌}
use ezproxy.Errors.{canceled}
use ezproxy.Context.{cancel}
use ezproxy.Handler.State.{Packet, Spawner}
use ezproxy.Handler.Lifecycle.{get_recv_chan}
use ezproxy.Lua.Values.{
  Value, bool_value, Checks, packet_data_to_table, Outcome, nothing, raised, Called, failed,
  returned, Function,
}
use ezproxy.Lua.Spawner.{LuaSpawner}

-- What callbackThread is woken by: a packet, with what the function of the script does with one then, or
-- the end of its context; and what others do before it.
pub data Wake : Type 0 where
  received : (Spawner → Spawner) → Packet → Function → Wake
  over : (Spawner → Spawner) → Wake

-- s.cancel()
abbrev pub cancel_watched : LuaSpawner → Spawner → Spawner
cancel_watched s p = elim s.watched [
  | none ↦ p
  | some c ↦ record p { contexts = cancel p.contexts c canceled }
]

-- What CheckBool(1) reads after a call that returned: the bottom of the stack, which is what the first
-- such call returned, as no result is popped.
abbrev pub bottom_of : Option Value → Value → Value
bottom_of none v = v
bottom_of (some b) v = b

-- CheckBool raises out of the loop if it reads no Boolean.
unfoldable pub after_check : Value → LuaSpawner → Spawner → Option Spawner
after_check (bool_value true) s p = some (cancel_watched s p)
after_check (bool_value false) s p = some p
after_check _ s p = none

-- One call of the function: the bottom of the stack after it, and the spawner.
unfoldable pub after_call :
    Called → Option Value → LuaSpawner → Spawner → Option (Option Value × Spawner)
unfolding after_check
after_call failed bottom s p = some (bottom, cancel_watched s p)
after_call (returned v) bottom s p =
    let b = bottom_of bottom v in after_check b s p >>= λ q. some (some b, q)

-- callbackThread over its wakes, with the bottom of its stack: none while it still waits.
unfoldable pub callback_thread :
    List Wake → Option Value → LuaSpawner → Spawner → Option (Outcome × LuaSpawner × Spawner)
unfolding after_call packet_data_to_table
callback_thread [] bottom s p = none
callback_thread (over m ∷ ws) bottom s p =
    some (nothing, record { ctx = none; watched = none }, cancel_watched s (m p))
callback_thread (received m pkt f ∷ ws) bottom s p =
    let (r, own) = f (m p) (packet_data_to_table pkt) in
    elim (after_call r bottom s own) [
      | none ↦ some (raised, s, own)
      | some (b, q) ↦ callback_thread ws b s q
    ]

-- The receiver of bindSetCallback: context.WithCancel of a nil context is a panic.
unfoldable pub watch : LuaSpawner → Spawner → Option (LuaSpawner × Spawner)
watch s p = elim s.watched [
  | some c ↦ some (s, p)
  | none ↦ s.ctx >>= λ c.
      let (own, q) = get_recv_chan c p in some (record { ctx = some own; watched = some own }, q)
]

-- How bindSetCallback goes: a panic, still waiting, or an outcome.
pub data Watching : Type 0 where
  panics waiting : Watching
  done : Outcome → LuaSpawner → Spawner → Watching

abbrev of_thread : Option (Outcome × LuaSpawner × Spawner) → Watching
of_thread none = waiting
of_thread (some (o, s, p)) = done o s p

-- bindSetCallback, the function get_packets of a script
unfoldable pub bind_set_callback : Checks → List Wake → List Value → LuaSpawner → Spawner → Watching
unfolding watch callback_thread
bind_set_callback lua ws [] s p = done raised s p
bind_set_callback lua ws (v ∷ vs) s p = elim (lua.check_function v) [
  | none ↦ done raised s p
  | some f ↦ elim (watch s p) [
    | none ↦ panics
    | some (s', q) ↦ of_thread (callback_thread ws none s' q)
  ]
]
