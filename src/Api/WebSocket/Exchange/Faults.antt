-- ===== src/Api/WebSocket/Exchange/Faults.antt =====
-- Where the exchange over filterChan goes wrong: api/websocket.go and api/ws_client.go.
use ezproxy.Base.{
  ℕ, ◌<◌, ◌≡◌, refl, true, false, ◌==◌, some, [], ◌∷◌, arith, ◌⊎◌, inl, inr, Bool-cases,
}
use ezproxy.Base.Maps.{lookup}
use ezproxy.Handler.State.{Env, Spawner}
use ezproxy.Api.WebSocket.{allow, drop, wait, send_error, send_pkt, number_packet, await_verdict}
use ezproxy.Api.WebSocket.Client.{ClientMsg, act_filter, handle_client_action}
use ezproxy.Api.WebSocket.Exchange.Laws.{IsSound, Step-Follows, Step-IsSound}
use ezproxy.Api.WebSocket.Exchange.{
  Exchange, is_in, reaches_send, decide, Step, arrives, passes, acts, wakes, settles, gives_up,
  closes, Reach, here, next,
}

-- The client's goroutine is at its send, and no packet waits.
abbrev pub IsJammed : Exchange → Type 0
IsJammed t = (t.blocked ≡ true) × (t.waiting ≡ [])

-- Since t, a packet has been given a number, or the exchange is still jammed.
abbrev pub StaysJammed : ℕ → Exchange → Type 0
StaysJammed n u = (n < u.socket.pkt_id) ⊎ (IsJammed u × (n ≡ u.socket.pkt_id))

-- A verdict comes too late.
pub late_verdict-IsJammed :
    (env : Env) (m : ClientMsg) (p : Spawner) (t : Exchange)
    → m.kind ≡ 3
    → t.socket.can_filter ≡ true
    → lookup m.target t.socket.filter_map ≡ some wait
    → t.blocked ≡ false
    → t.waiting ≡ []
    → (u : Exchange) × Step t u × IsJammed u
unfolding handle_client_action reaches_send
late_verdict-IsJammed env m p t k f e b w =
    let u : Exchange = record t { socket = act_filter m t.socket; blocked = true } in
    (
      u,
      acts env (some (some m)) p p (act_filter m t.socket) b (ground arith) (ground arith),
      (refl, w),
    )

Step-StaysJammed :
    {t u : Exchange} (n : ℕ) → IsSound t → Step t u → StaysJammed n t → StaysJammed n u
unfolding send_pkt number_packet
Step-StaysJammed {t} {u} n s x (inl l) = inl (omega (arith, l, (Step-Follows s x).grows))
Step-StaysJammed {t} n s (arrives bytes flags c p a0 l a e) (inr ((b, w), k)) =
    rw e (inl (omega (arith, k, l)))
Step-StaysJammed {t} {u} n s (passes fails bytes flags c p d w' a0 l a e) (inr ((b, w), k)) =
    let f = (Step-Follows s (passes fails bytes flags c p d w' a0 l a e)).grows in
    elim (Bool-cases (t.socket.pkt_id == u.socket.pkt_id)) [
      | inl q ↦ inr (rw e (b, w), ground arith)
      | inr q ↦ inl (ground (arith, f))
    ]
Step-StaysJammed {t} n s (acts env m p q w' f a e) (inr ((b, w), k)) = absurd (cc (b, f))
Step-StaysJammed {t} n s (wakes j f i a e) (inr ((b, w), k)) = absurd (cc (rw w at i))
Step-StaysJammed {t} n s (settles j d w' f i a e) (inr ((b, w), k)) = absurd (cc (rw w at i))
Step-StaysJammed {t} n s (gives_up j d w' i a e) (inr ((b, w), k)) = absurd (cc (rw w at i))
Step-StaysJammed {t} n s (closes j d w' i a e) (inr ((b, w), k)) = absurd (cc (rw w at i))

Reach-StaysJammed :
    {t u : Exchange}
    → IsSound t
    → IsJammed t
    → Reach t u
    → IsSound u × StaysJammed t.socket.pkt_id u
Reach-StaysJammed s j here = (s, inr (j, refl))
Reach-StaysJammed s j (next r x) =
    let (s', k) = Reach-StaysJammed s j r in (Step-IsSound s' x, Step-StaysJammed _ s' x k)

-- Once the client's goroutine is at its send and no packet waits, as it is after a verdict on a packet
-- whose time was over, it stays there, and handles no other message, whatever happens, until another
-- packet has been given a number.
pub Reach-IsJammed :
    {t u : Exchange}
    → IsSound t
    → IsJammed t
    → Reach t u
    → u.socket.pkt_id ≡ t.socket.pkt_id
    → IsJammed u
Reach-IsJammed s j r e = elim (Reach-StaysJammed s j r).1 [
  | inl l ↦ absurd (omega (arith, l, e))
  | inr k ↦ k.0
]

-- A verdict can be lost: if two packets wait and the client has just allowed one of them, the goroutine of
-- the other may take the send, and then the packet that was allowed is dropped by default when its
-- time is over.
pub verdict_lost :
    (t : Exchange) (n k : ℕ)
    → t.blocked ≡ true
    → is_in n t.waiting ≡ true
    → is_in k t.waiting ≡ true
    → lookup n t.socket.filter_map ≡ some allow
    → lookup k t.socket.filter_map ≡ some wait
    → t.socket.default_action ≡ drop
    → (u : Exchange) × Reach t u
      × (u.decided ≡ (n, false) ∷ t.decided)
      × (lookup n u.socket.filter_map ≡ some allow)
unfolding await_verdict
verdict_lost t n k b i j v w d =
    let woken : Exchange = record t { blocked = false } in
    let late = send_error 408 "packet timed out" t.socket in
    (
      decide n false late false woken,
      next (next here (wakes k b j (rw (await_verdict, w) refl) refl))
          (gives_up n false late i (rw (await_verdict, d) refl) refl),
      refl,
      v,
    )
