-- ===== src/Api/WebSocket.antt =====
-- A WebSocket of the API, api/websocket.go: what its client may ask for, the packets that it is shown
-- and the wait for its verdicts.
pub mod Callback
pub mod Client
pub mod Exchange
pub mod Laws
pub mod Raw
pub mod Runs
use Prim.Native.Nat.{bit_and}
use Prim.Native.String.{String}
use text.Mathlib.Text.{◌==◌ as str_eq}
use ezproxy.Base.{
  ℕ, ◌+◌, ◌%◌, Bool, true, false, not, ◌&&◌, ◌||◌, ◌==◌, Option, none, some, List, [], ◌∷◌,
  if◌then◌else◌, ◌>>=◌,
}
use ezproxy.Base.Maps.{lookup, insert}
use ezproxy.Errors.{Error, proxy_closed_ok, ok, err}
use ezproxy.Handler.Flags.{is_serverbound, is_injected}
use ezproxy.Handler.State.{Bytes, word, Container, Env, Spawner}
use ezproxy.Handler.Container.{cancel_container, send_to_client, send_to_server}
use ezproxy.Handler.Connections.{
  close_each, get_proxy, get_all_proxies, send_to_all_clients, send_to_all_servers,
}
use ezproxy.Api.Perms.{check_permission, close, filter, inject, code}
use ezproxy.Api.Endpoints.{both}

-- wsFilterValue
pub data Verdict : Type 0 where
  drop wait allow : Verdict

-- wsPacket; PktNum is none for its -1
pub record WsPacket : Type 0 where
  pub pkt_num : Option ℕ
  pub proxy_id : ℕ
  pub network : String
  pub source : String
  pub dest : String
  pub content : Bytes
  pub flags : ℕ

-- What is written to the socket: _sendRaw by sendPacket and by sendError.
pub data Message : Type 0 where
  shown : WsPacket → Message
  failed : ℕ → String → Message

-- wsApi, and what was written to its socket, newest first; `ws` says whether ws is set, which it is
-- once Accept has returned.
pub record Socket : Type 0 where
  pub ws : Bool
  pub can_inject : Bool
  pub can_filter : Bool
  pub can_close : Bool
  pub filter_map : List (ℕ × Verdict)
  pub pkt_id : ℕ
  pub default_action : Verdict
  pub network_filter : String
  pub written : List Message

-- sendError
abbrev pub send_error : ℕ → String → Socket → Socket
send_error status text w = record w { written = failed status text ∷ w.written }

-- matchesNetworkFilter
unfoldable pub matches_network_filter : Socket → Container → Bool
matches_network_filter w c =
    if str_eq w.network_filter "" then true else str_eq w.network_filter c.px.network

-- The packet of sendPkt under a number.
unfoldable pub ws_packet : Option ℕ → Bytes → ℕ → Container → Spawner → WsPacket
unfolding is_serverbound
ws_packet num bytes flags c p = record {
  pkt_num = num;
  proxy_id = c.id;
  network = c.px.network;
  source = if is_serverbound flags then c.px.client_addr.address else p.server_addr.address;
  dest = if is_serverbound flags then p.server_addr.address else c.px.client_addr.address;
  content = bytes;
  flags = flags;
}

-- The number that sendPkt takes, and the entry that waits for a verdict.
unfoldable pub number_packet : ℕ → Socket → Socket
number_packet flags w = record w {
  pkt_id = (w.pkt_id + 1) % word;
  filter_map =
      if w.can_filter && not (is_injected flags)
      then insert w.pkt_id wait w.filter_map
      else w.filter_map;
}

-- sendPkt
unfoldable pub send_pkt : Bool → Bytes → ℕ → Container → Spawner → Socket → WsPacket × Socket
unfolding number_packet ws_packet
send_pkt true bytes flags c p w =
    let pkt = ws_packet (some w.pkt_id) bytes flags c p in
    let w' = number_packet flags w in (pkt, record w' { written = shown pkt ∷ w'.written })
send_pkt false bytes flags c p w =
    let pkt = ws_packet none bytes flags c p in (pkt, record w { written = shown pkt ∷ w.written })

-- What wakes the select of handleRecvFilter.
pub data Wake : Type 0 where
  ended : Wake  -- w.ctx.Done()
  timed_out : Wake  -- timer.C
  updated : List (ℕ × Verdict) → Wake  -- w.filterChan, with the map as it is then

abbrev pub is_allow : Verdict → Bool
is_allow allow = true
is_allow _ = false

-- w.filterMap[n] as the switch sees it: 0, which is wsFilterWait, for a missing key.
abbrev pub verdict_at : List (ℕ × Verdict) → ℕ → Verdict
verdict_at m n = elim (lookup n m) [ none ↦ wait | some v ↦ v ]

-- The loop of handleRecvFilter over its wakes: none while it still waits.
unfoldable pub await_verdict : ℕ → List Wake → Socket → Option (Bool × Socket)
await_verdict n [] w = none
await_verdict n (ended ∷ ws) w = some (is_allow w.default_action, w)
await_verdict n (timed_out ∷ ws) w =
    some (is_allow w.default_action, send_error 408 "packet timed out" w)
await_verdict n (updated m ∷ ws) w =
    let rest = await_verdict n ws w in
    elim (verdict_at m n) [ allow ↦ some (true, w) | drop ↦ some (false, w) | wait ↦ rest ]

-- handleRecvFilter of a WebSocket whose ws is set; `fails` is an error of the write to the socket.
unfoldable pub handle_recv_filter :
    Bool → List Wake → Bytes → ℕ → Container → Spawner → Socket → Option (Bool × Socket)
unfolding matches_network_filter send_pkt await_verdict
handle_recv_filter fails wakes bytes flags c p w =
    if not (matches_network_filter w c)
    then some (is_allow w.default_action, w)
    else (let (pkt, w') = send_pkt true bytes flags c p w in
        if fails
        then some (is_allow w.default_action, w')
        else if is_injected flags
        then some (true, w')
        else await_verdict w.pkt_id wakes w')

-- How a call of the filter callback goes: a panic, still waiting, or its answer.
pub data Answer : Type 0 where
  crashes waits : Answer
  answers : Bool → Socket → Answer

abbrev of_wait : Option (Bool × Socket) → Answer
of_wait none = waits
of_wait (some (b, w)) = answers b w

-- handleSend, the filter callback of the socket. TrySetFilterCallback installs it before Accept sets ws:
-- until then a packet that it is to show is a write to a nil ws.
unfoldable pub handle_send_callback :
    Bool → List Wake → Bytes → ℕ → Container → Spawner → Socket → Answer
unfolding handle_recv_filter matches_network_filter send_pkt
handle_send_callback fails wakes bytes flags c p w =
    if matches_network_filter w c && not w.ws
    then crashes
    else if w.can_filter
    then of_wait (handle_recv_filter fails wakes bytes flags c p w)
    else answers true
        (if matches_network_filter w c then (send_pkt false bytes flags c p w).1 else w)

-- What newWebSocket reads of the query.
pub record Query : Type 0 where
  pub wants_close : Bool
  pub wants_inject : Bool
  pub wants_filter : Bool
  pub default_value : Option String

-- A refusal of newWebSocket by its status.
pub data Opened : Type 0 where
  opened : Socket → Opened
  denied : ℕ → Opened

unfoldable pub fresh_socket : Socket
fresh_socket = record {
  ws = false;
  can_inject = false;
  can_filter = false;
  can_close = false;
  filter_map = [];
  pkt_id = 0;
  default_action = allow;
  network_filter = "";
  written = [];
}

-- The query parameter default.
unfoldable pub with_default : Option String → Socket → Opened
with_default none w = opened w
with_default (some def) w =
    if str_eq def "drop"
    then opened (record w { default_action = drop })
    else if str_eq def "allow"
    then opened (record w { default_action = allow })
    else denied 400

-- The third of the permissions that newWebSocket checks.
unfoldable pub grant_filter : ℕ → Query → Socket → Opened
unfolding with_default
grant_filter value q w =
    if q.wants_filter
    then (if check_permission value (code filter)
        then with_default q.default_value (record w { can_filter = true })
        else denied 403)
    else opened w

unfoldable pub grant_inject : ℕ → Query → Socket → Opened
unfolding grant_filter
grant_inject value q w =
    if q.wants_inject
    then (if check_permission value (code inject)
        then grant_filter value q (record w { can_inject = true })
        else denied 403)
    else grant_filter value q w

-- newWebSocket from the value of the key to the permissions of the socket.
unfoldable pub grant : ℕ → Query → Opened
unfolding grant_inject fresh_socket
grant value q =
    if q.wants_close
    then (if check_permission value (code close)
        then grant_inject value q (record fresh_socket { can_close = true })
        else denied 403)
    else grant_inject value q fresh_socket
