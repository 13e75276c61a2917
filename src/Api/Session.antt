-- ===== src/Api/Session.antt =====
-- The life of a WebSocket, api/websocket.go: newWebSocket, its loops, and Close.
pub mod Laws
pub mod Runs
pub mod Serves
use Prim.Native.String.{String}
use text.Mathlib.Text.{◌==◌ as str_eq}
use ezproxy.Base.{
  ℕ, Bool, true, false, not, ◌&&◌, Option, none, some, List, [], ◌∷◌, if◌then◌else◌, get_elem?,
  ◌>>=◌,
}
use ezproxy.Errors.{Error, canceled, ok, err}
use ezproxy.Context.{Contexts, with_cancel, cancel}
use ezproxy.Handler.State.{Packet, Env, Spawner}
use ezproxy.Handler.Connections.{get_proxy}
use ezproxy.Handler.Lifecycle.{try_set_filter_callback, get_recv_chan}
use ezproxy.Api.Http.{Request, Response, Checked, pass, refuse}
use ezproxy.Api.Perms.{auth_all}
use ezproxy.Api.Auth.{Keys, get_auth_values}
use ezproxy.Api.WebSocket.{
  Socket, Query, Opened, opened, denied, grant, matches_network_filter, send_pkt,
}
use ezproxy.Api.WebSocket.Client.{ClientMsg, handle_client_action}
use ezproxy.Api.WebSocket.Exchange.{reaches_send}

-- A wsApi with its context, and that of the receiver that its recvCancel cancels.
pub record Session : Type 0 where
  pub socket : Socket
  pub ctx : ℕ
  pub recv : Option ℕ

abbrev cancel_some : Option ℕ → Contexts → Contexts
cancel_some none s = s
cancel_some (some c) s = cancel s c canceled

-- wsApi.Close
unfoldable pub close : ℕ → Option ℕ → Spawner → Spawner
close ctx recv p = record p { contexts = cancel_some recv (cancel p.contexts ctx canceled) }

-- One packet of recv: of a proxy that is gone it is not shown.
unfoldable pub on_packet : Packet → Spawner → Socket → Option Socket
unfolding matches_network_filter send_pkt
on_packet pkt p w = elim (get_proxy pkt.proxy_id p) [
  | err e ↦ some w
  | ok h ↦ get_elem? p.containers h >>= λ c.
      some
        (if matches_network_filter w c then (send_pkt false pkt.content pkt.flags c p w).1 else w)
]

-- recv, over the packets that it gets, each with the spawner as it is then
unfoldable pub recv : List (Packet × Spawner) → Socket → Option Socket
unfolding on_packet
recv [] w = some w
recv ((pkt, p) ∷ l) w = on_packet pkt p w >>= recv l

-- What listen meets: the end of its context, or what its Read gives. A message comes with whether a
-- goroutine that waits for a verdict takes the send on filterChan, if handling it comes to that.
pub data Incoming : Type 0 where
  ended deadline cancelled failed : Incoming
  message : Option (Option ClientMsg) → Bool → Incoming

-- How listen goes: a panic of package handler, not ended yet, reading or at a send that nobody takes, or
-- its end.
pub data Listening : Type 0 where
  panics : Listening
  listening : Spawner → Socket → Listening
  over : Spawner → Socket → Listening

-- listen, over what it meets, each after what others do to the spawner
unfoldable pub listen :
    Env → ℕ → Option ℕ → List ((Spawner → Spawner) × Incoming) → Spawner → Socket → Listening
unfolding close reaches_send
listen env ctx recv [] p w = listening p w
listen env ctx recv ((m, deadline) ∷ l) p w = listen env ctx recv l (m p) w
listen env ctx recv ((m, message c taken) ∷ l) p w = elim (handle_client_action env c (m p) w) [
  | none ↦ panics
  | some r ↦
      if reaches_send c w && not taken then listening r.0 r.1 else listen env ctx recv l r.0 r.1
]
listen env ctx recv ((m, ended) ∷ l) p w = over (close ctx recv (m p)) w
listen env ctx recv ((m, cancelled) ∷ l) p w = over (close ctx recv (m p)) w
listen env ctx recv ((m, failed) ∷ l) p w = over (close ctx recv (m p)) w

-- The value that newWebSocket checks the permissions with: AuthAll without a table of keys.
unfoldable pub value_of : Option Keys → Request → Checked ℕ
unfolding get_auth_values
value_of none r = pass auth_all
value_of (some keys) r = elim (get_auth_values keys r) [
  | refuse x ↦ refuse x
  | pass (key, value) ↦ pass value
]

-- How newWebSocket goes before the socket is accepted. `answered` stands for a refusal that
-- getAuthValues has written.
pub data Started : Type 0 where
  answered : Response → Spawner → Started
  refused : ℕ → Spawner → Started
  started : Session → Spawner → Started

unfoldable pub is_network : String → Bool
is_network n = if str_eq n "" then true else if str_eq n "tcp" then true else str_eq n "udp"

-- The network filter, which is looked at last.
unfoldable pub with_network : String → Socket → ℕ → Option ℕ → Spawner → Started
unfolding is_network close
with_network n w ctx recv p =
    if is_network n
    then started (record { socket = record w { network_filter = n }; ctx = ctx; recv = recv }) p
    else refused 400 (close ctx recv p)

-- The filter callback, named `cb`, or a receiver under the context of the WebApi.
unfoldable pub attach : ℕ → ℕ → String → Socket → ℕ → Spawner → Started
unfolding with_network
attach cb api_ctx n w ctx p =
    if w.can_filter
    then (let (r, q) = try_set_filter_callback (some cb) ctx p in
        elim r [ some e ↦ refused 409 (close ctx none q) | none ↦ with_network n w ctx none q ])
    else (let (own, q) = get_recv_chan api_ctx p in with_network n w ctx (some own) q)

abbrev attach_opened : ℕ → ℕ → String → Opened → ℕ → Spawner → Started
attach_opened cb api_ctx n (denied s) ctx p = refused s (close ctx none p)
attach_opened cb api_ctx n (opened w) ctx p = attach cb api_ctx n w ctx p

-- newWebSocket up to the call of Accept. The contexts are those of the spawner's store.
unfoldable pub new_web_socket : Option Keys → Request → Query → String → ℕ → ℕ → Spawner → Started
unfolding value_of grant attach close
new_web_socket auth r q n cb api_ctx p =
    let (contexts, ctx) = with_cancel p.contexts api_ctx in
    let p' : Spawner = record p { contexts = contexts } in
    elim (value_of auth r) [
      | refuse x ↦ answered x (close ctx none p')
      | pass value ↦ attach_opened cb api_ctx n (grant value q) ctx p'
    ]

-- How newWebSocket goes: the answers before Accept, a panic of package handler, still running, or its
-- end, with the socket if it was accepted.
pub data Served : Type 0 where
  turned_away : Spawner → Served
  panics_ : Served
  serving : Spawner → Socket → Served
  served : Spawner → Option Socket → Served

-- The rest of newWebSocket from Accept on, which fails or sets ws; the deferred Close comes last.
unfoldable pub serve :
    Env → Option Error → List ((Spawner → Spawner) × Incoming) → Session → Spawner → Served
unfolding listen close
serve env (some e) l s p = served (close s.ctx s.recv p) none
serve env none l s p = elim (listen env s.ctx s.recv l p (record s.socket { ws = true })) [
  | panics ↦ panics_
  | listening q w ↦ serving q w
  | over q w ↦ served (close s.ctx s.recv q) (some w)
]

-- newWebSocket
unfoldable pub web_socket :
    Env
    → Option Error
    → List ((Spawner → Spawner) × Incoming)
    → Option Keys
    → Request
    → Query
    → String
    → ℕ
    → ℕ
    → Spawner
    → Served
unfolding new_web_socket serve
web_socket env accepts l auth r q n cb api_ctx p = elim (new_web_socket auth r q n cb api_ctx p) [
  | answered x p' ↦ turned_away p'
  | refused s p' ↦ turned_away p'
  | started s p' ↦ serve env accepts l s p'
]
