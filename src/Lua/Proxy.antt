-- ===== src/Lua/Proxy.antt =====
-- A container as a script sees it, ezp_lua/proxy.go.
use ezproxy.Base.{ℕ, Option, none, some, List, [], ◌∷◌, get_elem?, ◌>>=◌}
use ezproxy.Errors.{Error}
use ezproxy.Handler.State.{Bytes, Env, Container, Spawner}
use ezproxy.Handler.Container.{
  is_alive, send_to_client, send_to_server, id_of, network_of, server_addr_of, client_addr_of,
  bytes_sent_of, last_contact_time_ago,
}
use ezproxy.Lua.Values.{
  Value, bool_value, number_value, text_value, Checks, Outcome, nothing, pushed, raised, Bound,
  add_function,
}

-- The functions of the table of luaProxy.ToTable
pub data Method : Type 0 where
  alive to_client to_server id network server_addr client_addr bytes_sent last_contact : Method

-- Their numbers of arguments
unfoldable pub arity : Method → ℕ
arity to_client = 1
arity to_server = 1
arity _ = 0

-- The first argument, which addFunction has counted; CheckString raises if there is none.
abbrev pub first : List Value → (Value → Option Bytes) → Option Bytes
first [] f = none
first (v ∷ vs) f = f v

-- An error of the send is raised in the script.
unfoldable pub sent : Option Error × Spawner → Outcome × Spawner
sent (none, p) = (nothing, p)
sent (some e, p) = (raised, p)

-- bindSendToClient and bindSendToServer
unfoldable pub bind_send :
    (Bytes → Spawner → Option (Option Error × Spawner)) → Checks → List Value → Bound
unfolding sent
bind_send send lua args p = elim (first args lua.check_string) [
  | none ↦ some (raised, p)
  | some data_ ↦ send data_ p >>= λ r. some (sent r)
]

-- The bind functions that only read a container
abbrev read : ℕ → (Container → Value) → Bound
read h f p = get_elem? p.containers h >>= λ c. some (pushed (f c), p)

-- bindGetId … bindGetLastContact and the sends; a time is in the unit of the clock.
unfoldable pub bind : Checks → Env → ℕ → Method → List Value → Bound
unfolding bind_send
bind lua env h alive args p = some (pushed (bool_value (is_alive p h)), p)
bind lua env h to_client args p = bind_send (λ d. send_to_client env d h) lua args p
bind lua env h to_server args p = bind_send (λ d. send_to_server env d h) lua args p
bind lua env h id args p = read h (λ c. number_value (id_of c)) p
bind lua env h network args p = read h (λ c. text_value (network_of c)) p
bind lua env h server_addr args p = some (pushed (text_value (server_addr_of p).address), p)
bind lua env h client_addr args p = read h (λ c. text_value (client_addr_of c).address) p
bind lua env h bytes_sent args p = read h (λ c. number_value (bytes_sent_of c)) p
bind lua env h last_contact args p = read h (λ c. number_value (last_contact_time_ago env p c)) p

-- A call of one of the functions of the table
unfoldable pub call : Checks → Env → ℕ → Method → List Value → Bound
unfolding bind arity add_function
call lua env h m args = add_function (arity m) args (bind lua env h m args)
