-- ===== src/Api/WebSocket/Exchange/Growth.antt =====
-- What the goroutines of a WebSocket make of its numbers and verdicts: api/websocket.go and api/ws_client.go.
use ezproxy.Base.{
  ℕ, ◌+◌, ◌<◌, ◌≤◌, ◌≡◌, ◌≢◌, refl, Bool, true, not, ◌&&◌, ◌==◌, Option, none, some, [], ◌∷◌,
  if◌then◌else◌, arith, ◌⊎◌, inl, inr, Bool-cases,
}
use ezproxy.Base.Maps.{lookup, lookup-insert}
use ezproxy.Handler.State.{Bytes, word, Container, Env, Spawner}
use ezproxy.Api.WebSocket.{
  Verdict, allow, drop, wait, Socket, send_error, is_allow, matches_network_filter, number_packet,
  send_pkt, Wake, ended, timed_out, updated, await_verdict, handle_recv_filter,
}
use ezproxy.Api.WebSocket.Client.{
  ClientMsg, bit, settle_verdict, act_filter, act_inject, act_close, handle_client_action,
}
use ezproxy.Api.WebSocket.Laws.{handle_client_action-keeps}

-- Every entry belongs to a number that is taken.
abbrev pub IsNumbered : Socket → Type 0
IsNumbered w = (n : ℕ) (v : Verdict) → lookup n w.filter_map ≡ some v → n < w.pkt_id

-- What becomes of a socket: the numbers only grow, the default action and every verdict stay.
pub record Follows (w w' : Socket) : Type 0 where
  pub grows : w.pkt_id ≤ w'.pkt_id
  pub default : w'.default_action ≡ w.default_action
  pub final :
      (n : ℕ) (v : Verdict)
      → lookup n w.filter_map ≡ some v
      → v ≢ wait
      → lookup n w'.filter_map ≡ some v
  pub numbered : IsNumbered w'

-- A decision is the verdict on that very packet, or the default action.
abbrev pub IsTold : Socket → ℕ × Bool → Type 0
IsTold w (n, b) =
    ((v : Verdict) × (lookup n w.filter_map ≡ some v) × (v ≢ wait) × (b ≡ is_allow v))
    ⊎ (b ≡ is_allow w.default_action)

pub IsTold-Follows : (w w' : Socket) (d : ℕ × Bool) → Follows w w' → IsTold w d → IsTold w' d
IsTold-Follows w w' d f (inl (v, e, l, b)) = inl (v, f.final d.0 v e l, l, b)
IsTold-Follows w w' d f (inr b) = inr (ground (arith, f.default))

pub Follows-refl : (w : Socket) → IsNumbered w → Follows w w
Follows-refl w k = record {
  grows = omega arith;
  default = refl;
  final = λ n v e l. e;
  numbered = k;
}

-- The socket after a packet has got its number.
number_packet-Follows :
    (flags : ℕ) (w : Socket)
    → w.pkt_id + 1 < word
    → IsNumbered w
    → Follows w (number_packet flags w)
unfolding number_packet
number_packet-Follows flags w l k = record {
  grows = omega arith;
  default = refl;
  final = λ n v e d. ground (arith, k n v e, lookup-insert w.pkt_id n wait w.filter_map);
  numbered = λ n v e. ground (arith, k n v, lookup-insert w.pkt_id n wait w.filter_map);
}

pub send_pkt-Follows :
    (bytes : Bytes) (flags : ℕ) (c : Container) (p : Spawner) (w : Socket)
    → w.pkt_id + 1 < word
    → IsNumbered w
    → Follows w (send_pkt true bytes flags c p w).1
unfolding send_pkt
send_pkt-Follows bytes flags c p w l k =
    let f = number_packet-Follows flags w l k in
    record { grows = f.grows; default = f.default; final = f.final; numbered = f.numbered }

-- handleRecvFilter, if it returns before its select.
pub handle_recv_filter-Follows :
    (fails : Bool) (bytes : Bytes) (flags : ℕ) (c : Container) (p : Spawner) (b : Bool)
    (w w' : Socket)
    → w.pkt_id + 1 < word
    → IsNumbered w
    → handle_recv_filter fails [] bytes flags c p w ≡ some (b, w')
    → Follows w w'
unfolding handle_recv_filter await_verdict
handle_recv_filter-Follows fails bytes flags c p b w w' l k e =
    elim (Bool-cases (not (matches_network_filter w c))) [
      | inl m ↦ let same : w ≡ w' = ground arith in rw (← same) (Follows-refl w k)
      | inr m ↦
          let same : (send_pkt true bytes flags c p w).1 ≡ w' = ground arith in
          rw (← same) (send_pkt-Follows bytes flags c p w l k)
    ]

pub await_verdict-Follows :
    (n : ℕ) (x : Wake) (b : Bool) (w w' : Socket)
    → IsNumbered w
    → await_verdict n (x ∷ []) w ≡ some (b, w')
    → Follows w w'
unfolding await_verdict
await_verdict-Follows n ended b w w' k e =
    let same : w ≡ w' = ground arith in rw (← same) (Follows-refl w k)
await_verdict-Follows n timed_out b w w' k e =
    let same : send_error 408 "packet timed out" w ≡ w' = ground arith in
    rw (← same) (record { grows = omega arith; default = refl; final = λ j v d l. d; numbered = k })
await_verdict-Follows n (updated m) b w w' k e =
    let same : w ≡ w' = ground arith in rw (← same) (Follows-refl w k)

act_filter-numbers :
    (m : ClientMsg) (w : Socket)
    → IsNumbered w
    → ((act_filter m w).pkt_id ≡ w.pkt_id)
      × ((act_filter m w).default_action ≡ w.default_action)
      × IsNumbered (act_filter m w)
unfolding act_filter settle_verdict
act_filter-numbers m w k = (
  ground arith,
  ground arith,
  λ n v e. ground (
    arith,
    k n v,
    k m.target wait,
    lookup-insert m.target n (if bit m.extra 1 then allow else drop) w.filter_map,
  ),
)

-- The same numbers, default action and verdicts
abbrev IsLike : Socket → Socket → Type 0
IsLike w w' =
    (w'.filter_map ≡ w.filter_map) × (w'.pkt_id ≡ w.pkt_id) × (w'.default_action ≡ w.default_action)

-- How many numbers there are, what is done by default, and whose entries there are.
abbrev IsNumberedAs : Socket → Socket → Type 0
IsNumberedAs w w' = (w'.pkt_id ≡ w.pkt_id) × (w'.default_action ≡ w.default_action) × IsNumbered w'

IsLike-numbers : (w w' : Socket) → IsNumbered w → IsLike w w' → IsNumberedAs w w'
IsLike-numbers w w' k (m, i, d) = (i, d, λ n v e. ground (arith, k n v))

act_inject-IsLike :
    (env : Env) (m : ClientMsg) (p q : Spawner) (w w' : Socket)
    → act_inject env m p w ≡ some (q, w')
    → IsLike w w'
unfolding act_inject
act_inject-IsLike env m p q w w' h = (ground arith, ground arith, ground arith)

act_close-IsLike :
    (env : Env) (m : ClientMsg) (p q : Spawner) (w w' : Socket)
    → act_close env m p w ≡ some (q, w')
    → IsLike w w'
unfolding act_close
act_close-IsLike env m p q w w' h = (ground arith, ground arith, ground arith)

-- What a message of the client leaves of a socket.
handle_client_action-numbers :
    (env : Env) (m : Option (Option ClientMsg)) (p q : Spawner) (w w' : Socket)
    → IsNumbered w
    → handle_client_action env m p w ≡ some (q, w')
    → IsNumberedAs w w'
unfolding handle_client_action
handle_client_action-numbers env none p q w w' k e =
    IsLike-numbers w w' k (ground arith, ground arith, ground arith)
handle_client_action-numbers env (some none) p q w w' k e =
    IsLike-numbers w w' k (ground arith, ground arith, ground arith)
handle_client_action-numbers env (some (some m)) p q w w' k e = elim (Bool-cases (m.kind == 1)) [
  | inl a ↦ elim (Bool-cases w.can_inject) [
    | inl b ↦ IsLike-numbers w w' k (act_inject-IsLike env m p q w w' (ground arith))
    | inr b ↦ IsLike-numbers w w' k (ground arith, ground arith, ground arith)
  ]
  | inr a ↦ elim (Bool-cases (m.kind == 2)) [
    | inl b ↦ elim (Bool-cases w.can_close) [
      | inl c ↦ IsLike-numbers w w' k (act_close-IsLike env m p q w w' (ground arith))
      | inr c ↦ IsLike-numbers w w' k (ground arith, ground arith, ground arith)
    ]
    | inr b ↦ elim (Bool-cases (m.kind == 3 && w.can_filter)) [
      | inl c ↦
          let same : act_filter m w ≡ w' = ground arith in rw (← same) (act_filter-numbers m w k)
      | inr c ↦ IsLike-numbers w w' k (ground arith, ground arith, ground arith)
    ]
  ]
]

pub handle_client_action-Follows :
    (env : Env) (m : Option (Option ClientMsg)) (p q : Spawner) (w w' : Socket)
    → IsNumbered w
    → handle_client_action env m p w ≡ some (q, w')
    → Follows w w'
handle_client_action-Follows env m p q w w' k e =
    let (i, d, k') = handle_client_action-numbers env m p q w w' k e in
    record {
      grows = omega (arith, i);
      default = d;
      final = λ n v h l. handle_client_action-keeps env m p q w w' n v h l e;
      numbered = k';
    }
