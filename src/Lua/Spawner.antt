-- ===== src/Lua/Spawner.antt =====
-- The spawner as a script sees it, ezp_lua/spawner.go.
pub mod Packets
pub mod Laws
use ezproxy.Base.{
  ℕ, Bool, true, false, Option, none, some, List, [], ◌∷◌, length, ◌==◌, if◌then◌else◌, ◌>>=◌,
}
use ezproxy.Errors.{Error, canceled, proxy_closed_ok, ok, err}
use ezproxy.Context.{cancel}
use ezproxy.Handler.State.{Bytes, Packet, Env, Spawner}
use ezproxy.Handler.Container.{cancel_container, send_to_client, send_to_server}
use ezproxy.Handler.Connections.{
  get_proxy, get_all_proxies, send_to_all_clients, send_to_all_servers, close_each,
}
use ezproxy.Handler.Lifecycle.{
  get_recv_chan, begin_close, end_close, is_alive, get_bytes_sent, get_server_addr, get_proxy_addr,
}
use ezproxy.Lua.Values.{
  Value, bool_value, number_value, text_value, proxy_value, Checks, PacketTable,
  packet_data_to_table, Outcome, nothing, pushed, raised, Bound, Called, failed, returned, Function,
}
use ezproxy.Lua.Proxy.{first, sent}

-- luaSpawner: `ctx` is its context, and `watched` the receiver of rcvChan, whose context `cancel`
-- cancels.
pub record LuaSpawner : Type 0 where
  pub ctx : Option ℕ
  pub watched : Option ℕ

-- The luaSpawner that NewLuaBindingFromFile makes
unfoldable pub fresh_lua_spawner : LuaSpawner
fresh_lua_spawner = record { ctx = none; watched = none }

-- -1 and -2, as arguments of a script
abbrev pub minus_one : ℕ
minus_one = 0xffff_ffff_ffff_ffff

abbrev pub minus_two : ℕ
minus_two = 0xffff_ffff_ffff_fffe

-- The two arguments of an injection; a check that fails raises.
abbrev pub inject_args : Checks → List Value → Option (ℕ × Bytes)
inject_args lua (a ∷ b ∷ vs) = lua.check_int a >>= λ id. lua.check_string b >>= λ d. some (id, d)
inject_args lua _ = none

-- The sends of the three injections: to all containers and to one.
pub record Sends : Type 0 where
  pub to_all : Bytes → Spawner → Option (Option Error × Spawner)
  pub to_one : Bytes → ℕ → Spawner → Option (Option Error × Spawner)

unfoldable pub client_sends : Env → Sends
client_sends env = record {
  to_all = send_to_all_clients env;
  to_one = λ d h. send_to_client env d h;
}

unfoldable pub server_sends : Env → Sends
server_sends env = record {
  to_all = send_to_all_servers env;
  to_one = λ d h. send_to_server env d h;
}

-- The body that the injections share; `finish` is what becomes of the error of the send.
unfoldable pub inject_with :
    (Option Error × Spawner → Outcome × Spawner) → Sends → Checks → List Value → Bound
inject_with finish sends lua args p = elim (inject_args lua args) [
  | none ↦ some (raised, p)
  | some (id, data_) ↦
      if id == minus_one
      then (sends.to_all data_ p >>= λ r. some (finish r))
      else elim (get_proxy id p) [
        | err e ↦ some (raised, p)
        | ok h ↦ sends.to_one data_ h p >>= λ r. some (finish r)
      ]
]

-- The error of a send is dropped.
abbrev pub ignored : Option Error × Spawner → Outcome × Spawner
ignored (e, p) = (nothing, p)

unfoldable pub bind_inject_to_server : Checks → Env → List Value → Bound
unfolding inject_with server_sends sent
bind_inject_to_server lua env = inject_with sent (server_sends env) lua

unfoldable pub bind_inject_to_client : Checks → Env → List Value → Bound
unfolding inject_with client_sends sent
bind_inject_to_client lua env = inject_with sent (client_sends env) lua

-- As the source has it, it sends to the clients only.
unfoldable pub bind_inject_to_both : Checks → Env → List Value → Bound
unfolding inject_with client_sends
bind_inject_to_both lua env = inject_with ignored (client_sends env) lua

abbrev pub with_int : Checks → List Value → (ℕ → Bound) → Bound
with_int lua [] f p = some (raised, p)
with_int lua (v ∷ vs) f p = elim (lua.check_int v) [ none ↦ some (raised, p) | some n ↦ f n p ]

-- bindGetProxy
unfoldable pub bind_get_proxy : Checks → List Value → Bound
bind_get_proxy lua args = with_int lua args (λ id p. elim (get_proxy id p) [
  | err e ↦ some (raised, p)
  | ok h ↦ some (pushed (proxy_value h), p)
])

-- luaSpawner.Close
unfoldable pub close : LuaSpawner → Spawner → LuaSpawner × Spawner
close s p = elim s.watched [
  | none ↦ (s, p)
  | some c ↦
      (record { ctx = none; watched = none }, record p { contexts = cancel p.contexts c canceled })
]

-- The case -2 of bindClose: Close of the spawner, with all that others do while it waits, then that of
-- the luaSpawner.
unfoldable pub close_spawner :
    (Spawner → Spawner) → LuaSpawner → Spawner → Option (Outcome × LuaSpawner × Spawner)
unfolding close
close_spawner meanwhile s p = begin_close p >>= λ q.
    let r = meanwhile q in
    let (s', r') = close s r in
    some (elim (end_close r) [ none ↦ nothing | some e ↦ raised ], s', r')

abbrev keep : LuaSpawner → Option (Outcome × Spawner) → Option (Outcome × LuaSpawner × Spawner)
keep s o = o >>= λ (x : Outcome × Spawner). some (x.0, s, x.1)

-- The other cases of bindClose
unfoldable pub close_proxies : Env → ℕ → Bound
unfolding close_each
close_proxies env v p =
    if v == minus_one
    then (close_each (get_all_proxies env p) p >>= λ q. some (nothing, q))
    else elim (get_proxy v p) [
      | err e ↦ some (raised, p)
      | ok h ↦ cancel_container proxy_closed_ok h p >>= λ q. some (nothing, q)
    ]

-- bindClose
unfoldable pub bind_close :
    Checks
    → Env
    → (Spawner → Spawner)
    → List Value
    → LuaSpawner
    → Spawner
    → Option (Outcome × LuaSpawner × Spawner)
unfolding close_spawner close_proxies
bind_close lua env meanwhile [] s p = some (raised, s, p)
bind_close lua env meanwhile (a ∷ rest) s p = elim (lua.check_int a) [
  | none ↦ some (raised, s, p)
  | some v ↦ if v == minus_two then close_spawner meanwhile s p else keep s (close_proxies env v p)
]

-- bindIsAlive, bindGetServerAddress, bindGetProxyAddress, bindGetBytesSent and bindGetProxyCount
pub data Getter : Type 0 where
  alive server_address proxy_address bytes_sent proxy_count : Getter

unfoldable pub bind_get : Env → Getter → Bound
bind_get env alive p = some (pushed (bool_value (is_alive p)), p)
bind_get env server_address p = some (pushed (text_value (get_server_addr p).address), p)
bind_get env proxy_address p = some (pushed (text_value (get_proxy_addr p).address), p)
bind_get env bytes_sent p = some (pushed (number_value (get_bytes_sent p)), p)
bind_get env proxy_count p = some (pushed (number_value (length (get_all_proxies env p))), p)

-- The functions of the table of luaSpawner.toTable
pub data Method : Type 0 where
  inject_to_server inject_to_client inject_to_both get_packets close_ get_proxy_ : Method
  get : Getter → Method

-- Their numbers of arguments
unfoldable pub arity : Method → ℕ
arity inject_to_server = 2
arity inject_to_client = 2
arity inject_to_both = 2
arity get_packets = 1
arity close_ = 1
arity get_proxy_ = 1
arity (get g) = 0
