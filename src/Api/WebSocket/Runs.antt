-- ===== src/Api/WebSocket/Runs.antt =====
-- What a client of a WebSocket does to the spawner is steps of its process, api/ws_client.go.
use ezproxy.Base.{
  Bool, true, false, not, ◌&&◌, ◌==◌, Option, none, some, Returns, Returns->>=, Bool-cases,
  Option-cases, inl, inr, ◌>>=◌, if◌then◌else◌,
}
use ezproxy.Base.Maps.{lookup}
use ezproxy.Errors.{proxy_closed_ok}
use ezproxy.Handler.State.{Env, Spawner}
use ezproxy.Handler.Invariant.{IsValid}
use ezproxy.Handler.Invariant.Frame.{lookup-stored}
use ezproxy.Handler.Container.{send_to_client, send_to_server}
use ezproxy.Handler.Connections.{
  get_proxy, get_all_proxies, send_to_all_clients, send_to_all_servers,
}
use ezproxy.Handler.Process.Runs.{
  RangesOver, Acts, Acts-refl, get_all_proxies-AreStored, cancel_container-Acts, close_each-Acts,
}
use ezproxy.Api.Endpoints.Laws.{both-Acts, send_to-Keeps, send_to_all-Keeps}
use ezproxy.Api.WebSocket.{Socket}
use ezproxy.Api.WebSocket.Client.{
  ClientMsg, target_all, bit, act_inject, act_close, handle_client_action,
}

-- The spawner after an action, with the socket
abbrev Acted : Spawner → Spawner × Socket → Type 0
Acted p r = Acts p r.0

either :
    (p : Spawner) (b : Bool) (x y : Option (Spawner × Socket))
    → Returns x (Acted p)
    → Returns y (Acted p)
    → Returns (if b then x else y) (Acted p)
either p true x y a b = a
either p false x y a b = b

with_socket :
    (m : Option Spawner) (p : Spawner) (w : Socket)
    → Returns m (Acts p)
    → Returns (m >>= λ q. some (q, w)) (Acted p)
with_socket m p w a = Returns->>= (Acts p) (Acted p) m _ a (λ q _ k. k)

act_inject-Acted :
    (env : Env) (m : ClientMsg) (p : Spawner) (w : Socket)
    → RangesOver env
    → IsValid p
    → Returns (act_inject env m p w) (Acted p)
unfolding act_inject send_to_all_clients send_to_all_servers send_to_client send_to_server get_proxy
act_inject-Acted env m p w o v = elim (Bool-cases (not (bit m.extra 2) && not (bit m.extra 1))) [
  | inl e ↦ rw e (Acts-refl p v)
  | inr e ↦ rw e (elim (Bool-cases (m.target == target_all)) [
    | inl f ↦ rw f (
        with_socket _ p w (
          both-Acts (bit m.extra 2) (bit m.extra 1) _ _ p v
            (send_to_all-Keeps true env m.content p o) (send_to_all-Keeps false env m.content p o)))
    | inr f ↦ rw f (elim (Option-cases (lookup m.target p.connections)) [
      | inl g ↦ rw (Returns, g) (Acts-refl p v)
      | inr (h, g) ↦
          let l = lookup-stored m.target h p p.connections v.located g in
          rw (Returns, g)
            (with_socket _ p w (
              both-Acts (bit m.extra 2) (bit m.extra 1) _ _ p v
                (send_to-Keeps true env m.content h p l) (send_to-Keeps false env m.content h p l)))
    ])
  ])
]

act_close-Acted :
    (env : Env) (m : ClientMsg) (p : Spawner) (w : Socket)
    → RangesOver env
    → IsValid p
    → Returns (act_close env m p w) (Acted p)
unfolding act_close get_proxy
act_close-Acted env m p w o v = elim (Bool-cases (m.target == target_all)) [
  | inl f ↦ rw f (
      with_socket _ p w
        (close_each-Acts (get_all_proxies env p) p v (get_all_proxies-AreStored env p o v)))
  | inr f ↦ rw f (elim (Option-cases (lookup m.target p.connections)) [
    | inl g ↦ rw (Returns, g) (Acts-refl p v)
    | inr (h, g) ↦
        let l = lookup-stored m.target h p p.connections v.located g in
        rw (Returns, g) (with_socket _ p w (cancel_container-Acts proxy_closed_ok h p v l))
  ])
]

-- Whatever the client of a WebSocket sends, and whatever it may do, handling it does not make the server
-- panic, and all that it does to a valid spawner is steps of its process, which keep it valid, its table
-- and its next id, if a range over a map visits only entries of the map.
pub handle_client_action-Acts :
    (env : Env) (m : Option (Option ClientMsg)) (p : Spawner) (w : Socket)
    → RangesOver env
    → IsValid p
    → Returns (handle_client_action env m p w) (λ r. Acts p r.0)
unfolding handle_client_action
handle_client_action-Acts env none p w o v = Acts-refl p v
handle_client_action-Acts env (some none) p w o v = Acts-refl p v
handle_client_action-Acts env (some (some m)) p w o v =
    either p (m.kind == 1) _ _
      (either p w.can_inject _ _ (act_inject-Acted env m p w o v) (Acts-refl p v))
      (either p (m.kind == 2) _ _
        (either p w.can_close _ _ (act_close-Acted env m p w o v) (Acts-refl p v))
        (either p (m.kind == 3) _ _ (either p w.can_filter _ _ (Acts-refl p v) (Acts-refl p v))
          (Acts-refl p v)))
