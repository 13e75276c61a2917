-- ===== src/Api/WebSocket/Exchange.antt =====
-- How the verdicts of a client meet the packets that wait for them: every packet waits in
-- handleRecvFilter (api/websocket.go) of a goroutine of its own, the client's messages are handled by one
-- goroutine (api/ws_client.go), and filterChan, which has no buffer, joins them.
pub mod Growth
pub mod Laws
pub mod Faults
use ezproxy.Base.{
  ℕ, ◌+◌, ◌<◌, ◌≡◌, Bool, true, false, ◌||◌, ◌&&◌, ◌==◌, Option, none, some, List, [], ◌∷◌,
  if◌then◌else◌,
}
use ezproxy.Base.Maps.{lookup}
use ezproxy.Handler.State.{Bytes, word, Container, Env, Spawner}
use ezproxy.Api.WebSocket.{
  Verdict, wait, Socket, send_pkt, Wake, ended, timed_out, updated, await_verdict,
  handle_recv_filter,
}
use ezproxy.Api.WebSocket.Client.{ClientMsg, handle_client_action}

-- `waiting` are the numbers of the packets whose goroutine is at its select, `decided` what those that
-- were there returned, newest first; `passed` are the flags of the packets whose goroutine returned before
-- its select, with what it returned; `blocked` says that the client's goroutine is at its send on filterChan.
pub record Exchange : Type 0 where
  pub socket : Socket
  pub waiting : List ℕ
  pub decided : List (ℕ × Bool)
  pub passed : List (ℕ × Bool)
  pub blocked : Bool

abbrev pub is_in : ℕ → List ℕ → Bool
is_in n [] = false
is_in n (k ∷ l) = let rest = is_in n l in k == n || rest

abbrev pub without : ℕ → List ℕ → List ℕ
without n [] = []
without n (k ∷ l) = let rest = without n l in if k == n then rest else k ∷ rest

abbrev waits_at : Option Verdict → Bool
waits_at (some wait) = true
waits_at _ = false

-- A message that gets to the send on filterChan at the end of its case.
unfoldable pub reaches_send : Option (Option ClientMsg) → Socket → Bool
reaches_send none w = false
reaches_send (some none) w = false
reaches_send (some (some m)) w =
    m.kind == 3 && w.can_filter && waits_at (lookup m.target w.filter_map)

-- The goroutine of packet n returns b and leaves the socket w.
abbrev pub decide : ℕ → Bool → Socket → Bool → Exchange → Exchange
decide n b w blocked t = record {
  socket = w;
  waiting = without n t.waiting;
  decided = (n, b) ∷ t.decided;
  passed = t.passed;
  blocked = blocked;
}

pub data Step (t u : Exchange) : Type 0 where
  -- handleRecvFilter comes to its select, or returns before it. Accept has returned.
  arrives :
      (bytes : Bytes) (flags : ℕ) (c : Container) (p : Spawner)
      → t.socket.ws ≡ true
      → t.socket.pkt_id + 1 < word
      → handle_recv_filter false [] bytes flags c p t.socket ≡ none
      → u ≡ record t {
        socket = (send_pkt true bytes flags c p t.socket).1;
        waiting = t.socket.pkt_id ∷ t.waiting;
      }
      → Step t u
  passes :
      (fails : Bool) (bytes : Bytes) (flags : ℕ) (c : Container) (p : Spawner) (b : Bool)
      (w : Socket)
      → t.socket.ws ≡ true
      → t.socket.pkt_id + 1 < word
      → handle_recv_filter fails [] bytes flags c p t.socket ≡ some (b, w)
      → u ≡ record t { socket = w; passed = (flags, b) ∷ t.passed }
      → Step t u
  -- A message of the client is handled, up to the send.
  acts :
      (env : Env) (m : Option (Option ClientMsg)) (p q : Spawner) (w : Socket)
      → t.blocked ≡ false
      → handle_client_action env m p t.socket ≡ some (q, w)
      → u ≡ record t { socket = w; blocked = reaches_send m t.socket }
      → Step t u
  -- The send is received by the goroutine of packet n, which goes on waiting or returns.
  wakes :
      (n : ℕ)
      → t.blocked ≡ true
      → is_in n t.waiting ≡ true
      → await_verdict n (updated t.socket.filter_map ∷ []) t.socket ≡ none
      → u ≡ record t { blocked = false }
      → Step t u
  settles :
      (n : ℕ) (b : Bool) (w : Socket)
      → t.blocked ≡ true
      → is_in n t.waiting ≡ true
      → await_verdict n (updated t.socket.filter_map ∷ []) t.socket ≡ some (b, w)
      → u ≡ decide n b w false t
      → Step t u
  -- Its timer fires, or the context of the socket is over.
  gives_up :
      (n : ℕ) (b : Bool) (w : Socket)
      → is_in n t.waiting ≡ true
      → await_verdict n (timed_out ∷ []) t.socket ≡ some (b, w)
      → u ≡ decide n b w t.blocked t
      → Step t u
  closes :
      (n : ℕ) (b : Bool) (w : Socket)
      → is_in n t.waiting ≡ true
      → await_verdict n (ended ∷ []) t.socket ≡ some (b, w)
      → u ≡ decide n b w t.blocked t
      → Step t u

pub data Reach (t : Exchange) : Exchange → Type 0 where
  here : Reach t t
  next : {u v : Exchange} → Reach t u → Step u v → Reach t v

-- A socket that has shown nothing yet
abbrev pub opening : Socket → Exchange
opening w = record { socket = w; waiting = []; decided = []; passed = []; blocked = false }
