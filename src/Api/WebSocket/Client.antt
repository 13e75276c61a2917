-- ===== src/Api/WebSocket/Client.antt =====
-- The actions of the client of a WebSocket, api/ws_client.go.
use Prim.Native.Nat.{bit_and}
use ezproxy.Base.{ℕ, Bool, not, ◌&&◌, ◌==◌, Option, none, some, if◌then◌else◌, ◌>>=◌}
use ezproxy.Base.Maps.{lookup, insert}
use ezproxy.Errors.{proxy_closed_ok, ok, err}
use ezproxy.Handler.State.{Bytes, Env, Spawner}
use ezproxy.Handler.Container.{cancel_container, send_to_client, send_to_server}
use ezproxy.Handler.Connections.{
  close_each, get_proxy, get_all_proxies, send_to_all_clients, send_to_all_servers,
}
use ezproxy.Api.Endpoints.{both}
use ezproxy.Api.WebSocket.{allow, drop, wait, Socket, send_error}

-- wsClientMsg, its integers as 64-bit patterns
pub record ClientMsg : Type 0 where
  pub kind : ℕ
  pub target : ℕ
  pub content : Bytes
  pub extra : ℕ

-- wsTargetAll, -1
abbrev pub target_all : ℕ
target_all = 0xffff_ffff_ffff_ffff

abbrev pub bit : ℕ → ℕ → Bool
bit v b = not (bit_and v b == 0)

-- The case wsReqInject, its permission given.
unfoldable pub act_inject : Env → ClientMsg → Spawner → Socket → Option (Spawner × Socket)
unfolding both
act_inject env m p w =
    if not (bit m.extra 2) && not (bit m.extra 1)
    then some (p, send_error 400 "toClient and/or toServer must be set in 'Extra'" w)
    else if m.target == target_all
    then (both (bit m.extra 2) (bit m.extra 1) (send_to_all_servers env m.content)
          (send_to_all_clients env m.content) p
        >>= λ q. some (q, w))
    else elim (get_proxy m.target p) [
      | err e ↦ some (p, send_error 404 "proxy not found" w)
      | ok h ↦
          both (bit m.extra 2) (bit m.extra 1) (send_to_server env m.content h)
            (send_to_client env m.content h) p
          >>= λ q. some (q, w)
    ]

-- The case wsReqClose, its permission given.
unfoldable pub act_close : Env → ClientMsg → Spawner → Socket → Option (Spawner × Socket)
unfolding close_each
act_close env m p w =
    if m.target == target_all
    then (close_each (get_all_proxies env p) p >>= λ q. some (q, w))
    else elim (get_proxy m.target p) [
      | err e ↦ some (p, send_error 404 "proxy not found" w)
      | ok h ↦ cancel_container proxy_closed_ok h p >>= λ q. some (q, w)
    ]

-- The entry of a packet that waits is settled.
unfoldable pub settle_verdict : ClientMsg → Socket → Socket
settle_verdict m w = record w {
  filter_map = insert m.target (if bit m.extra 1 then allow else drop) w.filter_map;
}

-- The case wsReqFilter, its permission given, up to the send on filterChan.
unfoldable pub act_filter : ClientMsg → Socket → Socket
unfolding settle_verdict
act_filter m w = elim (lookup m.target w.filter_map) [
  | none ↦ send_error 404 "packet not found" w
  | some wait ↦ settle_verdict m w
  | some v ↦ send_error 410 "packet already handled" w
]

-- handleClientAction: the message as text, if it is, decoded, if it can be.
unfoldable pub handle_client_action :
    Env → Option (Option ClientMsg) → Spawner → Socket → Option (Spawner × Socket)
unfolding act_inject act_close act_filter
handle_client_action env none p w = some (p, send_error 400 "Data type must be Text JSON" w)
handle_client_action env (some none) p w = some (p, send_error 400 "Bad JSON data" w)
handle_client_action env (some (some m)) p w =
    if m.kind == 1
    then (if w.can_inject
        then act_inject env m p w
        else some (p, send_error 403 "Missing permissions to inject" w))
    else if m.kind == 2
    then (if w.can_close
        then act_close env m p w
        else some (p, send_error 403 "Missing permissions to close" w))
    else if m.kind == 3
    then (if w.can_filter
        then some (p, act_filter m w)
        else some (p, send_error 403 "Missing permissions to inject" w))
    else some (p, send_error 400 "Unknown Type" w)
