-- ===== src/Lua/Callback.antt =====
-- The callbacks of a script, ezp_lua/callback.go: EzpFilter decides on packets, EzpOnPacket watches
-- them.
pub mod Laws
use Prim.Native.String.{String}
use ezproxy.Base.{ℕ, Bool, true, false, Option, none, some, List, [], ◌∷◌, if◌then◌else◌}
use ezproxy.Errors.{Error, canceled, no_callbacks, both_callbacks}
use ezproxy.Context.{with_cancel, cancel}
use ezproxy.Handler.Flags.{is_serverbound}
use ezproxy.Handler.State.{Bytes, Packet, Container, Spawner}
use ezproxy.Handler.Lifecycle.{try_set_filter_callback, get_recv_chan}
use ezproxy.Lua.Values.{
  Value, bool_value, function_value, packet_data_to_table, Called, failed, returned, Function,
}

-- c.luaCancel(), by the context that it cancels
abbrev pub lua_cancel : ℕ → Spawner → Spawner
lua_cancel c p = record p { contexts = cancel p.contexts c canceled }

-- How the answer of a function of the script is read, in handleFilters and in sendOnPacket: a call
-- that fails, and an answer that is no Boolean, cancel the script's context and count as true.
unfoldable pub answer_of : Called → ℕ → Spawner → Bool × Spawner
answer_of failed c p = (true, lua_cancel c p)
answer_of (returned (bool_value b)) c p = (b, p)
answer_of (returned _) c p = (true, lua_cancel c p)

-- The packet that handleFilters shows to the script
unfoldable pub filter_packet : Bytes → ℕ → Container → Spawner → Packet
filter_packet bytes flags c p = record {
  flags = flags;
  source = if is_serverbound flags then c.px.client_addr else p.server_addr;
  dest = if is_serverbound flags then p.server_addr else c.px.client_addr;
  content = bytes;
  proxy_id = c.id;
}

-- handleFilters
unfoldable pub handle_filters : Function → ℕ → Bytes → ℕ → Container → Spawner → Bool × Spawner
unfolding answer_of filter_packet packet_data_to_table
handle_filters f lua_ctx bytes flags c p =
    let (r, q) = f p (packet_data_to_table (filter_packet bytes flags c p)) in answer_of r lua_ctx q

-- sendOnPacket
unfoldable pub send_on_packet : Function → ℕ → Packet → Spawner → Bool × Spawner
unfolding answer_of packet_data_to_table
send_on_packet f c pkt p = let (r, q) = f p (packet_data_to_table pkt) in answer_of r c q

-- luaCallback: what is defined, and the context that luaCancel cancels.
pub record LuaCallback : Type 0 where
  pub on_packet : Option ℕ
  pub cancels : ℕ

-- What run is woken by: a packet, with what the function of the script does with one then; and the end
-- of rcvCtx or of luaCtx. Others act on the spawner before it.
pub data Event : Type 0 where
  received : (Spawner → Spawner) → Packet → Function → Event
  recv_over : (Spawner → Spawner) → Event
  lua_over : (Spawner → Spawner) → Event

-- A packet: whether run returns, and the spawner.
unfoldable pub on_received : LuaCallback → Packet → Function → Spawner → Bool × Spawner
unfolding send_on_packet
on_received c pkt f p = elim c.on_packet [
  | none ↦ (false, p)
  | some g ↦
      let (removed, q) = send_on_packet f c.cancels pkt p in
      if removed then (true, lua_cancel c.cancels q) else (false, q)
]

-- run over its events: none while it still waits.
unfoldable pub run : LuaCallback → List Event → Spawner → Option Spawner
unfolding on_received
run c [] p = none
run c (received m pkt f ∷ es) p =
    let (over, q) = on_received c pkt f (m p) in elim over [ true ↦ some q | false ↦ run c es q ]
run c (recv_over m ∷ es) p = some (lua_cancel c.cancels (m p))
run c (lua_over m ∷ es) p = some (m p)

-- l.GetGlobal; none is a nil of Go.
abbrev pub Globals : Type 0
Globals = String → Option Value

abbrev pub as_function : Option Value → Option ℕ
as_function (some (function_value f)) = some f
as_function _ = none

-- How runLuaCallback goes: it still runs, or it returns, with its error.
pub data Running : Type 0 where
  runs : Running
  returns : Option Error → Spawner → Running

-- The deferred luaCancel, which cancels luaCtx.
abbrev pub leave : ℕ → Option Error → Spawner → Running
leave lua_ctx e p = returns e (lua_cancel lua_ctx p)

abbrev pub of_run : ℕ → Option Spawner → Running
of_run lua_ctx none = runs
of_run lua_ctx (some p) = leave lua_ctx none p

-- The second half of runLuaCallback, once the filter is looked at.
unfoldable pub watch_packets : Globals → Option ℕ → ℕ → List Event → Spawner → Running
unfolding run
watch_packets globals filter lua_ctx es p = elim (as_function (globals "EzpOnPacket")) [
  | some f ↦ elim filter [
    | some g ↦ leave lua_ctx (some both_callbacks) p
    | none ↦
        let (own, q) = get_recv_chan lua_ctx p in
        of_run lua_ctx (run (record { on_packet = some f; cancels = own }) es q)
  ]
  | none ↦ elim (globals "EzpFilter") [
    | none ↦ leave lua_ctx (some no_callbacks) p
    | some v ↦ of_run lua_ctx (run (record { on_packet = none; cancels = lua_ctx }) es p)
  ]
]

-- The first half: the filter is installed if there is one; `cb` names it.
unfoldable pub install_filter : Globals → ℕ → ℕ → List Event → Spawner → Running
unfolding watch_packets
install_filter globals cb lua_ctx es p = elim (as_function (globals "EzpFilter")) [
  | none ↦ watch_packets globals none lua_ctx es p
  | some f ↦
      let (r, q) = try_set_filter_callback (some cb) lua_ctx p in
      elim r [
        | some e ↦ leave lua_ctx (some e) q
        | none ↦ watch_packets globals (some f) lua_ctx es q
      ]
]

-- runLuaCallback under a context
unfoldable pub run_lua_callback : Globals → ℕ → ℕ → List Event → Spawner → Running
unfolding install_filter
run_lua_callback globals cb ctx es p =
    let (contexts, lua_ctx) = with_cancel p.contexts ctx in
    install_filter globals cb lua_ctx es (record p { contexts = contexts })
