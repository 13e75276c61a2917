-- ===== src/Api/Session/Runs.antt =====
-- What a WebSocket does to the spawner while it is read is steps of its process: api/websocket.go.
use ezproxy.Base.{
  Bool, true, false, not, ◌&&◌, if◌then◌else◌, ℕ, Option, none, some, List, [], ◌∷◌, Returns,
}
use ezproxy.Errors.{canceled}
use ezproxy.Handler.State.{Env, Spawner}
use ezproxy.Handler.Process.{Reach, here}
use ezproxy.Handler.Process.Laws.{IsRunning, Reach-IsRunning}
use ezproxy.Handler.Process.Runs.{process, Reach-trans, cancel-Reach, RangesOver, Acts}
use ezproxy.Api.WebSocket.{Socket}
use ezproxy.Api.WebSocket.Client.{handle_client_action}
use ezproxy.Api.WebSocket.Runs.{handle_client_action-Acts}
use ezproxy.Api.WebSocket.Exchange.{reaches_send}
use ezproxy.Api.Session.{
  close, Incoming, ended, deadline, cancelled, failed, message, Listening, panics, listening, over,
  listen,
}

pub close-Reach :
    (n ctx : ℕ) (recv : Option ℕ) (p : Spawner) → Reach (process n p) (process n (close ctx recv p))
unfolding close
close-Reach n ctx none p = cancel-Reach n ctx canceled p
close-Reach n ctx (some c) p =
    Reach-trans (cancel-Reach n ctx canceled p) (cancel-Reach n c canceled _)

module _ (n k : ℕ) (env : Env) where
  -- Whenever the WebSocket is read, others have taken steps only.
  abbrev pub Fits : List ((Spawner → Spawner) × Incoming) → Spawner → Socket → Type 0
  Fits [] p w = Unit {0}
  Fits ((m, deadline) ∷ l) p w = Reach (process n p) (process n (m p)) × Fits l (m p) w
  Fits ((m, message c taken) ∷ l) p w =
      Reach (process n p) (process n (m p))
      × elim (handle_client_action env c (m p) w) as (λ _. Type 0) [
        | none ↦ Unit {0}
        | some r ↦ Fits l r.0 r.1
      ]
  Fits ((m, i) ∷ l) p w = Reach (process n p) (process n (m p))

  -- The loop does not panic, and has taken steps only.
  abbrev pub Listens : Spawner → Listening → Type 0
  Listens p panics = ⊥
  Listens p (listening q w) = Reach (process n p) (process n q)
  Listens p (over q w) = Reach (process n p) (process n q)

  Listens-trans :
      (p q : Spawner) (x : Listening)
      → Reach (process n p) (process n q)
      → Listens q x
      → Listens p x
  Listens-trans p q panics r h = h
  Listens-trans p q (listening s w) r h = Reach-trans r h
  Listens-trans p q (over s w) r h = Reach-trans r h

  message-Listens :
      (ctx : ℕ) (recv : Option ℕ) (l : List ((Spawner → Spawner) × Incoming)) (p : Spawner)
      (x : Option (Spawner × Socket)) (blocks : Bool)
      → Returns x (λ r. Acts p r.0)
      → elim x as (λ _. Type 0) [ none ↦ Unit {0} | some r ↦ Fits l r.0 r.1 ]
      → ((q : Spawner) (w : Socket)
          → Reach (process n p) (process n q)
          → Fits l q w
          → Listens q (listen env ctx recv l q w))
      → Listens p (elim x as (λ _. Listening) [
        | none ↦ panics
        | some r ↦ if blocks then listening r.0 r.1 else listen env ctx recv l r.0 r.1
      ])
  message-Listens ctx recv l p none blocks a f h = a
  message-Listens ctx recv l p (some (q, w)) true a f h = a.1 n
  message-Listens ctx recv l p (some (q, w)) false a f h =
      Listens-trans p q _ (a.1 n) (h q w (a.1 n) f)

  pub listen-Listens :
      (ctx : ℕ) (recv : Option ℕ) (l : List ((Spawner → Spawner) × Incoming)) (p : Spawner)
      (w : Socket)
      → RangesOver env
      → IsRunning k (process n p)
      → Fits l p w
      → Listens p (listen env ctx recv l p w)
  unfolding listen
  listen-Listens ctx recv [] p w o r f = here
  listen-Listens ctx recv ((m, deadline) ∷ l) p w o r (a, f) =
      Listens-trans p (m p) _ a (listen-Listens ctx recv l (m p) w o (Reach-IsRunning r a) f)
  listen-Listens ctx recv ((m, message c taken) ∷ l) p w o r (a, f) =
      let r' = Reach-IsRunning r a in
      Listens-trans p (m p) _ a (
        message-Listens ctx recv l (m p) (handle_client_action env c (m p) w)
          (reaches_send c w && not taken) (handle_client_action-Acts env c (m p) w o r'.valid) f
          (λ q w' b g. listen-Listens ctx recv l q w' o (Reach-IsRunning r' b) g))
  listen-Listens ctx recv ((m, ended) ∷ l) p w o r a = Reach-trans a (close-Reach n ctx recv (m p))
  listen-Listens ctx recv ((m, cancelled) ∷ l) p w o r a =
      Reach-trans a (close-Reach n ctx recv (m p))
  listen-Listens ctx recv ((m, failed) ∷ l) p w o r a = Reach-trans a (close-Reach n ctx recv (m p))
