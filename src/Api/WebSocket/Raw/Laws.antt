-- ===== src/Api/WebSocket/Raw/Laws.antt =====
-- What the client of a WebSocket can read of what it is sent: api/websocket.go and api/ws_client.go.
use ezproxy.Base.{
  ℕ, ◌≡◌, ◌≢◌, Bool, true, ◌==◌, Option, none, some, [], ◌∷◌, if◌then◌else◌, arith, All, All-map,
  All-zip, ◌>>=◌,
}
use ezproxy.Errors.{Error, Result, ok}
use ezproxy.Handler.State.{Bytes, Container, Env, Spawner}
use ezproxy.Api.WebSocket.{
  Message, shown, failed, Socket, number_packet, send_pkt, Wake, ended, timed_out, updated,
  await_verdict, handle_recv_filter,
}
use ezproxy.Api.WebSocket.Client.{
  ClientMsg, act_filter, act_inject, act_close, handle_client_action,
}
use ezproxy.Api.WebSocket.Exchange.{
  Exchange, Step, arrives, passes, acts, wakes, settles, gives_up, closes, Reach, here, next,
  opening,
}
use ezproxy.Api.WebSocket.Raw.{
  server_packet, text, packet, server_msg, BaseResponse, sent, send_raw, send_message,
}

-- What a client takes a response for: its status is 200 for a packet only.
abbrev pub reads : BaseResponse → Option Message
reads r = elim r.content [
  | text msg ↦ if r.status == 200 then none else some (failed r.status msg)
  | packet pkt ↦ none
  | server_msg t d ↦ elim d [ packet pkt ↦ some (shown pkt) | _ ↦ none ]
]

-- The message goes out as the bytes of a response that the client takes for that very message.
abbrev pub IsReadable :
    (BaseResponse → Result Bytes)
    → (Bytes → Option Error)
    → (Bytes → Option BaseResponse)
    → Message
    → Type 0
IsReadable marshal write unmarshal m =
    (bytes : Bytes) × (send_message marshal write m ≡ sent bytes (write bytes))
    × ((unmarshal bytes >>= λ r. reads r) ≡ some m)

-- An error is not sent with the status 200.
abbrev pub IsProper : Message → Type 0
IsProper (shown pkt) = Unit {0}
IsProper (failed status msg) = status ≢ 200

abbrev AllProper : Socket → Type 0
AllProper w = All IsProper w.written

-- The response that carries a message.
abbrev pub response_of : Message → BaseResponse
response_of (shown pkt) = record { status = 200; content = server_msg server_packet (packet pkt) }
response_of (failed status msg) = record { status = status; content = text msg }

-- The response of a message is encoded, and decoded to itself.
abbrev pub RoundTrips :
    (BaseResponse → Result Bytes) → (Bytes → Option BaseResponse) → Message → Type 0
RoundTrips marshal unmarshal m =
    (bytes : Bytes) × (marshal (response_of m) ≡ ok bytes)
    × (unmarshal bytes ≡ some (response_of m))

IsProper-IsReadable :
    (marshal : BaseResponse → Result Bytes) (write : Bytes → Option Error)
    (unmarshal : Bytes → Option BaseResponse) (m : Message)
    → RoundTrips marshal unmarshal m
    → IsProper m
    → IsReadable marshal write unmarshal m
unfolding send_message send_raw
IsProper-IsReadable marshal write unmarshal (shown pkt) (bytes, e, f) d =
    (bytes, ground arith, ground arith)
IsProper-IsReadable marshal write unmarshal (failed status msg) (bytes, e, f) d =
    (bytes, ground arith, ground arith)

act_inject-proper :
    (env : Env) (m : ClientMsg) (p q : Spawner) (w w' : Socket)
    → AllProper w
    → act_inject env m p w ≡ some (q, w')
    → AllProper w'
unfolding act_inject
act_inject-proper env m p q w w' a h = ground arith

act_close-proper :
    (env : Env) (m : ClientMsg) (p q : Spawner) (w w' : Socket)
    → AllProper w
    → act_close env m p w ≡ some (q, w')
    → AllProper w'
unfolding act_close
act_close-proper env m p q w w' a h = ground arith

act_filter-proper : (m : ClientMsg) (w : Socket) → AllProper w → AllProper (act_filter m w)
unfolding act_filter
act_filter-proper m w a = ground arith

handle_client_action-proper :
    (env : Env) (m : Option (Option ClientMsg)) (p q : Spawner) (w w' : Socket)
    → AllProper w
    → handle_client_action env m p w ≡ some (q, w')
    → AllProper w'
unfolding handle_client_action
handle_client_action-proper env none p q w w' a e = ground arith
handle_client_action-proper env (some none) p q w w' a e = ground arith
handle_client_action-proper env (some (some m)) p q w w' a e = ground (
  arith,
  act_inject-proper env m p q w w' a,
  act_close-proper env m p q w w' a,
  act_filter-proper m w a,
)

await_verdict-proper :
    (n : ℕ) (x : Wake) (b : Bool) (w w' : Socket)
    → AllProper w
    → await_verdict n (x ∷ []) w ≡ some (b, w')
    → AllProper w'
unfolding await_verdict
await_verdict-proper n ended b w w' a e = ground arith
await_verdict-proper n timed_out b w w' a e = ground arith
await_verdict-proper n (updated m) b w w' a e = ground arith

send_pkt-proper :
    (bytes : Bytes) (flags : ℕ) (c : Container) (p : Spawner) (w : Socket)
    → AllProper w
    → AllProper (send_pkt true bytes flags c p w).1
unfolding send_pkt number_packet
send_pkt-proper bytes flags c p w a = (tt, a)

handle_recv_filter-proper :
    (fails : Bool) (bytes : Bytes) (flags : ℕ) (c : Container) (p : Spawner) (b : Bool)
    (w w' : Socket)
    → AllProper w
    → handle_recv_filter fails [] bytes flags c p w ≡ some (b, w')
    → AllProper w'
unfolding handle_recv_filter await_verdict
handle_recv_filter-proper fails bytes flags c p b w w' a e =
    ground (arith, send_pkt-proper bytes flags c p w a)

Step-proper : {t u : Exchange} → AllProper t.socket → Step t u → AllProper u.socket
Step-proper {t} a (arrives bytes flags c p a0 l h e) =
    rw e (send_pkt-proper bytes flags c p t.socket a)
Step-proper {t} a (passes fails bytes flags c p b w a0 l h e) =
    rw e (handle_recv_filter-proper fails bytes flags c p b t.socket w a h)
Step-proper {t} a (acts env m p q w f h e) =
    rw e (handle_client_action-proper env m p q t.socket w a h)
Step-proper a (wakes n f i h e) = rw e a
Step-proper {t} a (settles n b w f i h e) =
    rw e (await_verdict-proper n (updated t.socket.filter_map) b t.socket w a h)
Step-proper {t} a (gives_up n b w i h e) = rw e (await_verdict-proper n timed_out b t.socket w a h)
Step-proper {t} a (closes n b w i h e) = rw e (await_verdict-proper n ended b t.socket w a h)

Reach-proper : {t u : Exchange} → AllProper t.socket → Reach t u → AllProper u.socket
Reach-proper a here = a
Reach-proper a (next r x) = Step-proper (Reach-proper a r) x

-- However the goroutines of a WebSocket that filters and whose ws is set interleave, the bytes of each
-- message that it has written are read back as that message, if it had written nothing before and
-- json.Marshal encodes the response of each message that it has written, and the client decodes it to
-- that response.
pub Reach-IsReadable :
    (marshal : BaseResponse → Result Bytes) (write : Bytes → Option Error)
    (unmarshal : Bytes → Option BaseResponse) (w : Socket) (u : Exchange)
    → w.written ≡ []
    → Reach (opening w) u
    → All (RoundTrips marshal unmarshal) u.socket.written
    → All (IsReadable marshal write unmarshal) u.socket.written
Reach-IsReadable marshal write unmarshal w u e r h =
    All-map _ _ u.socket.written (λ m (k, d). IsProper-IsReadable marshal write unmarshal m k d)
      (All-zip _ _ u.socket.written h (Reach-proper (rw e tt) r))
