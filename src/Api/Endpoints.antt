-- ===== src/Api/Endpoints.antt =====
-- The endpoints that show a spawner and inject into it, api/endpoints.go: epStatus, epProxyList and
-- epInject.
pub mod Laws
use Prim.Native.String.{String}
use ezproxy.Base.{
  ℕ, ◌-◌, Bool, true, false, not, ◌&&◌, Option, none, some, List, [], ◌∷◌, if◌then◌else◌, length,
  get_elem?, ◌>>=◌,
}
use ezproxy.Errors.{Error, ok, err}
use ezproxy.Handler.State.{Bytes, Addr, Container, Env, Spawner}
use ezproxy.Handler.Container.{
  send_to_client, send_to_server, id_of, client_addr_of, bytes_sent_of, last_contact_time_ago,
  is_alive as container_alive,
}
use ezproxy.Handler.Connections.{
  get_proxy, get_all_proxies, send_to_all_clients, send_to_all_servers,
}
use ezproxy.Handler.Lifecycle.{
  get_bytes_sent, get_proxy_addr, get_server_addr, is_alive as spawner_alive,
}

-- handlerStatus
pub record HandlerStatus : Type 0 where
  pub connection_count : ℕ
  pub alive : Bool
  pub bytes_sent : ℕ
  pub proxy_address : String
  pub server_address : String

-- epStatus
unfoldable pub ep_status : Env → Spawner → HandlerStatus
unfolding get_all_proxies
ep_status env p = record {
  connection_count = length (get_all_proxies env p);
  alive = spawner_alive p;
  bytes_sent = get_bytes_sent p;
  proxy_address = (get_proxy_addr p).address;
  server_address = (get_server_addr p).address;
}

-- proxyStatus
pub record ProxyStatus : Type 0 where
  pub id : ℕ
  pub alive : Bool
  pub address : String
  pub network : String
  pub bytes_sent : ℕ
  pub last_contact_ago : ℕ

unfoldable pub proxy_status : Env → Spawner → ℕ → Container → ProxyStatus
proxy_status env p h c = record {
  id = id_of c;
  alive = container_alive p h;
  address = (client_addr_of c).address;
  network = (client_addr_of c).network;
  bytes_sent = bytes_sent_of c;
  last_contact_ago = last_contact_time_ago env p c;
}

unfoldable pub statuses : Env → Spawner → List ℕ → Option (List ProxyStatus)
statuses env p [] = some []
statuses env p (h ∷ hs) =
    get_elem? p.containers h >>= λ c. statuses env p hs >>= λ l. some (proxy_status env p h c ∷ l)

-- epProxyList
unfoldable pub ep_proxy_list : Env → Spawner → Option (List ProxyStatus)
unfolding statuses get_all_proxies
ep_proxy_list env p = statuses env p (get_all_proxies env p)

-- injectData.Id: -1 stands for all proxies.
pub data Target : Type 0 where
  everyone : Target
  one : ℕ → Target

-- injectData
pub record InjectData : Type 0 where
  pub target : Target
  pub content : Bytes
  pub to_client : Bool
  pub to_server : Bool

-- The answers of epInject.
pub data Injected : Type 0 where
  unread : Injected  -- the body could not be read: 500
  invalid_json : Injected  -- 400
  no_direction : Injected  -- 400: ToClient and/or ToServer must be true
  proxy_not_found : Injected  -- 404
  sent : Injected  -- 200

-- The two sends, each under its condition; their errors are not looked at.
unfoldable pub both :
    Bool
    → Bool
    → (Spawner → Option (Option Error × Spawner))
    → (Spawner → Option (Option Error × Spawner))
    → Spawner
    → Option Spawner
both to_client to_server client server p =
    (if to_client then (client p >>= λ r. some r.1) else some p) >>= λ q.
    if to_server then (server q >>= λ r. some r.1) else some q

-- The sends of epInject.
unfoldable pub inject_at :
    Env → Bytes → Bool → Bool → Target → Spawner → Option (Injected × Spawner)
unfolding both
inject_at env bytes to_client to_server everyone p =
    both to_client to_server (send_to_all_clients env bytes) (send_to_all_servers env bytes) p
    >>= λ q. some (sent, q)
inject_at env bytes to_client to_server (one id) p = elim (get_proxy id p) [
  | err e ↦ some (proxy_not_found, p)
  | ok h ↦
      both to_client to_server (send_to_client env bytes h) (send_to_server env bytes h) p >>= λ q.
      some (sent, q)
]

-- epInject once the body is read: none is JSON that does not decode.
unfoldable pub inject_into : Env → Option InjectData → Spawner → Option (Injected × Spawner)
unfolding inject_at
inject_into env none p = some (invalid_json, p)
inject_into env (some d) p =
    if not d.to_client && not d.to_server
    then some (no_direction, p)
    else inject_at env d.content d.to_client d.to_server d.target p

-- epInject: the body that io.ReadAll returns, if it does, and json.Unmarshal as a parameter.
unfoldable pub ep_inject :
    (Bytes → Option InjectData) → Env → Option Bytes → Spawner → Option (Injected × Spawner)
unfolding inject_into
ep_inject decode env none p = some (unread, p)
ep_inject decode env (some bytes) p = inject_into env (decode bytes) p
