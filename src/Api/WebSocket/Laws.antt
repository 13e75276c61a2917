-- ===== src/Api/WebSocket/Laws.antt =====
-- What a WebSocket client may do, and that its verdicts count, api/websocket.go and api/ws_client.go.
use ezproxy.Base.{
  ℕ, ◌≡◌, ◌≢◌, refl, true, false, ◌==◌, Option, none, some, List, ◌∷◌, if◌then◌else◌, arith,
  Bool-cases, inl, inr,
}
use ezproxy.Base.Maps.{lookup, lookup-insert}
use ezproxy.Handler.State.{Env, Spawner}
use ezproxy.Api.Perms.{check_permission, close, filter, inject, code}
use ezproxy.Api.WebSocket.{
  Verdict, drop, wait, allow, Socket, updated, Wake, await_verdict, Query, opened, fresh_socket,
  with_default, grant_filter, grant_inject, grant,
}
use ezproxy.Api.WebSocket.Client.{
  ClientMsg, bit, act_inject, act_close, settle_verdict, act_filter, handle_client_action,
}

-- A WebSocket that is opened can close, inject or filter exactly if its request asked for that, and
-- then the permissions of the request's key allow it.
pub grant-opened :
    (value : ℕ) (q : Query) (w : Socket)
    → grant value q ≡ opened w
    → (w.can_close ≡ q.wants_close)
      × (w.can_inject ≡ q.wants_inject)
      × (w.can_filter ≡ q.wants_filter)
      × (w.can_close ≡ true → check_permission value (code close) ≡ true)
      × (w.can_inject ≡ true → check_permission value (code inject) ≡ true)
      × (w.can_filter ≡ true → check_permission value (code filter) ≡ true)
unfolding grant grant_inject grant_filter with_default fresh_socket
grant-opened value q w h = (
  ground arith,
  ground arith,
  ground arith,
  λ e. ground arith,
  λ e. ground arith,
  λ e. ground arith,
)

-- No message of a client without any of the three permissions changes the spawner, or the verdicts.
pub handle_client_action_powerless :
    (env : Env) (m : Option (Option ClientMsg)) (p : Spawner) (w : Socket)
    → w.can_close ≡ false
    → w.can_inject ≡ false
    → w.can_filter ≡ false
    → (w' : Socket) × (handle_client_action env m p w ≡ some (p, w'))
      × (w'.filter_map ≡ w.filter_map)
unfolding handle_client_action
handle_client_action_powerless env none p w a b c = (_, refl, refl)
handle_client_action_powerless env (some none) p w a b c = (_, refl, refl)
handle_client_action_powerless env (some (some m)) p w a b c =
    rw (a, b, c)
      (elim (Bool-cases (m.kind == 1)) [
        | inl d ↦ rw d (_, refl, refl)
        | inr d ↦ elim (Bool-cases (m.kind == 2)) [
          | inl e ↦ rw (d, e) (_, refl, refl)
          | inr e ↦ elim (Bool-cases (m.kind == 3)) [
            | inl f ↦ rw (d, e, f) (_, refl, refl)
            | inr f ↦ rw (d, e, f) (_, refl, refl)
          ]
        ]
      ])

-- A verdict on a packet that waits for one is what the filter's wait ends with at its next wake.
pub await_verdict-act_filter :
    (m : ClientMsg) (w v : Socket) (ws : List Wake)
    → lookup m.target w.filter_map ≡ some wait
    → await_verdict m.target (updated (act_filter m w).filter_map ∷ ws) v ≡ some (bit m.extra 1, v)
unfolding await_verdict act_filter settle_verdict
await_verdict-act_filter m w v ws h =
    ground
      (arith, lookup-insert m.target m.target (if bit m.extra 1 then allow else drop) w.filter_map)

act_filter-keeps :
    (m : ClientMsg) (w : Socket) (n : ℕ) (v : Verdict)
    → lookup n w.filter_map ≡ some v
    → v ≢ wait
    → lookup n (act_filter m w).filter_map ≡ some v
unfolding act_filter settle_verdict
act_filter-keeps m w n v h l =
    ground (arith, lookup-insert m.target n (if bit m.extra 1 then allow else drop) w.filter_map)

act_inject-filter_map :
    (env : Env) (m : ClientMsg) (p q : Spawner) (w w' : Socket)
    → act_inject env m p w ≡ some (q, w')
    → w'.filter_map ≡ w.filter_map
unfolding act_inject
act_inject-filter_map env m p q w w' h = ground arith

act_close-filter_map :
    (env : Env) (m : ClientMsg) (p q : Spawner) (w w' : Socket)
    → act_close env m p w ≡ some (q, w')
    → w'.filter_map ≡ w.filter_map
unfolding act_close
act_close-filter_map env m p q w w' h = ground arith

-- A verdict is final: no message of the client changes the entry of a packet that has one.
pub handle_client_action-keeps :
    (env : Env) (m : Option (Option ClientMsg)) (p q : Spawner) (w w' : Socket) (n : ℕ)
    (v : Verdict)
    → lookup n w.filter_map ≡ some v
    → v ≢ wait
    → handle_client_action env m p w ≡ some (q, w')
    → lookup n w'.filter_map ≡ some v
unfolding handle_client_action
handle_client_action-keeps env none p q w w' n v h l e = ground arith
handle_client_action-keeps env (some none) p q w w' n v h l e = ground arith
handle_client_action-keeps env (some (some m)) p q w w' n v h l e = ground (
  arith,
  act_inject-filter_map env m p q w w',
  act_close-filter_map env m p q w w',
  act_filter-keeps m w n v,
)
