-- ===== src/Handler/Connections.antt =====
-- The table of connections of a ProxySpawner, handler/spawner.go: AddConnection, GetProxy,
-- GetAllProxies, CloseProxy, SendToAllClients and SendToAllServers.
pub mod Adding
pub mod Laws
use ezproxy.Base.{
  ℕ, ◌+◌, ◌%◌, Bool, true, false, Option, none, some, List, [], ◌∷◌, map, if◌then◌else◌, is_some,
  ◌>>=◌,
}
use ezproxy.Base.Maps.{lookup, insert}
use ezproxy.Errors.{Error, canceled, proxy_closed_ok, proxy_not_found, Result, ok, err}
use ezproxy.Context.{is_done}
use ezproxy.Handler.State.{Bytes, word, Proxy, Env, Spawner}
use ezproxy.Handler.Send.{handle_error}
use ezproxy.Handler.Container.{send_to, cancel_container, is_alive}

-- CreateIProxyContainer: a new container for a proxy under an id, or an error.
abbrev pub Maker : Type 0
Maker = Proxy → ℕ → Spawner → Result ℕ × Spawner

-- p.connections[thisId] = pc, p.currentId++ and p.wg.Add(1)
unfoldable pub register : ℕ → Spawner → Spawner
register h p = record p {
  current_id = (p.current_id + 1) % word;
  connections = insert p.current_id h p.connections;
  wg = p.wg + 1;
}

-- What follows the call of containerMaker.
unfoldable pub settle_connection : Result ℕ → Spawner → Result ℕ × Spawner
unfolding register
settle_connection (ok h) p = (ok h, register h p)
settle_connection (err e) p = (err e, handle_error e none p)

unfoldable pub add_connection : Maker → Proxy → Spawner → Result ℕ × Spawner
unfolding settle_connection
add_connection maker px p =
    if is_done p.contexts p.context
    then (err canceled, p)
    else (let (made, p') = maker px p.current_id p in settle_connection made p')

abbrev or_not_found : Option ℕ → Result ℕ
or_not_found none = err proxy_not_found
or_not_found (some h) = ok h

unfoldable pub get_proxy : ℕ → Spawner → Result ℕ
get_proxy id p = or_not_found (lookup id p.connections)

-- The containers of the table, in the order in which this range over the map visits them.
unfoldable pub get_all_proxies : Env → Spawner → List ℕ
get_all_proxies env p = map (λ e. e.1) (env.order p.log p.connections)

unfoldable pub close_proxy : ℕ → Spawner → Option (Option Error × Spawner)
close_proxy id p = elim (get_proxy id p) [
  | err e ↦ some (some e, p)
  | ok h ↦ cancel_container proxy_closed_ok h p >>= λ q. some (none, q)
]

abbrev pub first_error : Option Error → Option Error → Option Error
first_error none e = e
first_error (some e) _ = some e

-- The loop of SendToAllServers (true) and SendToAllClients (false).
unfoldable pub send_each :
    Bool → Env → Bytes → Option Error → List ℕ → Spawner → Option (Option Error × Spawner)
send_each serverbound env bytes seen [] p = some (seen, p)
send_each serverbound env bytes seen (h ∷ hs) p =
    (if is_alive p h then send_to serverbound env bytes h p else some (none, p)) >>= λ r.
    send_each serverbound env bytes (first_error seen r.0) hs r.1

unfoldable pub send_to_all_clients : Env → Bytes → Spawner → Option (Option Error × Spawner)
unfolding send_each get_all_proxies
send_to_all_clients env bytes p = send_each false env bytes none (get_all_proxies env p) p

unfoldable pub send_to_all_servers : Env → Bytes → Spawner → Option (Option Error × Spawner)
unfolding send_each get_all_proxies
send_to_all_servers env bytes p = send_each true env bytes none (get_all_proxies env p) p

-- for _, v := range GetAllProxies() { v.Cancel(ErrProxyClosedOk) }, as the clients of the spawner do
unfoldable pub close_each : List ℕ → Spawner → Option Spawner
close_each [] p = some p
close_each (h ∷ hs) p = cancel_container proxy_closed_ok h p >>= close_each hs
