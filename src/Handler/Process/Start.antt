-- ===== src/Handler/Process/Start.antt =====
-- The start of a running spawner: NewProxySpawnerWithContainer of handler/spawner.go.
use ezproxy.Base.{refl, ℕ, ◌<◌, ◌≡◌, false, List, [], ◌∷◌, length, arith}
use ezproxy.Errors.{ok}
use ezproxy.Context.{Contexts, is_done, with_cancel, IsTree}
use ezproxy.Context.Laws.{with_cancel-IsTree}
use ezproxy.Handler.State.{Addr, Spawner}
use ezproxy.Handler.Invariant.{IsValid}
use ezproxy.Handler.Invariant.Frame.{wg-IsValid}
use ezproxy.Handler.Listener.{Listener}
use ezproxy.Handler.Pruner.{start_pruner}
use ezproxy.Handler.Lifecycle.{fresh_spawner, check_started, new_proxy_spawner}
use ezproxy.Handler.Process.{Process, Reach}
use ezproxy.Handler.Process.Laws.{IsRunning, Reach-IsRunning}

fresh_spawner-IsValid :
    (server proxy : Addr) (ctx : ℕ) (s : Contexts)
    → IsTree s
    → ctx < length s
    → IsValid (fresh_spawner server proxy ctx s)
unfolding fresh_spawner
fresh_spawner-IsValid server proxy ctx s t l = record {
  tree = with_cancel-IsTree s ctx t l;
  rooted = unfold with_cancel in omega arith;
  fresh = tt;
  located = tt;
  distinct = tt;
  linked = λ e. absurd (cc e);
  filter_made = tt;
  housed = tt;
  channels = tt;
  counted = omega arith;
}

-- The process of a new spawner, before its listeners run.
abbrev pub newborn : Addr → Addr → ℕ → Contexts → Process
newborn server proxy ctx s = record { spawner = fresh_spawner server proxy ctx s; listeners = 0 }

check_started-ok :
    (p q : Spawner) → check_started p ≡ ok q → (q ≡ p) × (is_done p.contexts p.context ≡ false)
unfolding check_started is_done
check_started-ok p q e = ground arith

new_proxy_spawner-ok :
    (server proxy : Addr) (ctx : ℕ) (s : Contexts) (hs : List Listener) (m : Spawner → Spawner)
    (q : Spawner)
    → new_proxy_spawner server proxy ctx s hs m ≡ ok q
    → check_started (m (fresh_spawner server proxy ctx s)) ≡ ok q
unfolding new_proxy_spawner
new_proxy_spawner-ok server proxy ctx s [] m q e = ground arith
new_proxy_spawner-ok server proxy ctx s (h ∷ hs) m q e = ground arith

pub start_pruner-IsRunning :
    (t : Process) → IsRunning 0 t → IsRunning 1 (record t { spawner = start_pruner t.spawner })
unfolding start_pruner
start_pruner-IsRunning t r = record {
  valid = wg-IsValid t.spawner _ r.valid (omega (arith, r.awaited));
  awaited = omega (arith, r.awaited);
}

-- Only the state that the listeners leave counts.
pub new_proxy_spawner-meanwhile :
    (server proxy : Addr) (ctx : ℕ) (s : Contexts) (hs : List Listener) (m : Spawner → Spawner)
    → new_proxy_spawner server proxy ctx s hs m
      ≡ new_proxy_spawner server proxy ctx s hs (λ _. m (fresh_spawner server proxy ctx s))
unfolding new_proxy_spawner
new_proxy_spawner-meanwhile server proxy ctx s [] m = refl
new_proxy_spawner-meanwhile server proxy ctx s (h ∷ hs) m = refl

pub newborn-IsRunning :
    (server proxy : Addr) (ctx : ℕ) (s : Contexts)
    → IsTree s
    → ctx < length s
    → IsRunning 0 (newborn server proxy ctx s)
newborn-IsRunning server proxy ctx s t l = record {
  valid = fresh_spawner-IsValid server proxy ctx s t l;
  awaited = unfold fresh_spawner in omega arith;
}

-- It has the contexts that its listeners left.
pub new_proxy_spawner-contexts :
    (server proxy : Addr) (ctx : ℕ) (s : Contexts) (hs : List Listener) (p q : Spawner)
    → new_proxy_spawner server proxy ctx s hs (λ _. p) ≡ ok q
    → q.contexts ≡ p.contexts
new_proxy_spawner-contexts server proxy ctx s hs p q e =
    rw (check_started-ok p q (new_proxy_spawner-ok server proxy ctx s hs (λ _. p) q e)).0 refl

-- A spawner is returned alive, as its listeners left it.
pub new_proxy_spawner-live :
    (server proxy : Addr) (ctx : ℕ) (s : Contexts) (hs : List Listener) (p q : Spawner)
    → new_proxy_spawner server proxy ctx s hs (λ _. p) ≡ ok q
    → (q ≡ p) × (is_done q.contexts q.context ≡ false)
new_proxy_spawner-live server proxy ctx s hs p q e =
    let (same, live) =
      check_started-ok p q (new_proxy_spawner-ok server proxy ctx s hs (λ _. p) q e) in
    (same, rw same live)

pub new_proxy_spawner-IsRunning :
    (server proxy : Addr) (ctx : ℕ) (s : Contexts) (hs : List Listener) (u v : Process)
    (q : Spawner)
    → IsTree s
    → ctx < length s
    → Reach (newborn server proxy ctx s) u
    → new_proxy_spawner server proxy ctx s hs (λ _. u.spawner) ≡ ok q
    → Reach (record { spawner = q; listeners = u.listeners }) v
    → IsRunning 0 (record { spawner = q; listeners = u.listeners })
      × IsRunning 1 (record v { spawner = start_pruner v.spawner })
new_proxy_spawner-IsRunning server proxy ctx s hs u v q t l r e later =
    let same = (new_proxy_spawner-live server proxy ctx s hs u.spawner q e).0 in
    let begun : IsRunning 0 (record { spawner = q; listeners = u.listeners }) =
      rw same (Reach-IsRunning (newborn-IsRunning server proxy ctx s t l) r) in
    (begun, start_pruner-IsRunning v (Reach-IsRunning begun later))
