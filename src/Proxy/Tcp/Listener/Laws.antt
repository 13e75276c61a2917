-- ===== src/Proxy/Tcp/Listener/Laws.antt =====
-- How TcpListener ends, proxy/tcp.go.
use ezproxy.Base.{
  ℕ, ◌<◌, ◌≡◌, refl, ◌∙◌, true, false, Option, some, List, [], ◌∷◌, arith, ◌⊎◌, inl, inr, length,
  Bool-cases, Option-cases,
}
use ezproxy.Errors.{Error, formatted, ok, err, Result-cases}
use ezproxy.Context.{is_done, IsTree}
use ezproxy.Context.Laws.{is_done-cancel_self}
use ezproxy.Handler.State.{Addr, Env, Spawner}
use ezproxy.Proxy.Net.{NetError, is_timeout_error, Meanwhile}
use ezproxy.Proxy.Tcp.Listener.{
  fail, Turn, Next, stop, go, connect, turn_of, loop, Resolve, tcp_listener,
}

Next-cases : (n : Next) → ((q : Spawner) × (n ≡ stop q)) ⊎ ((q : Spawner) × (n ≡ go q))
Next-cases (stop q) = inl (q, refl)
Next-cases (go q) = inr (q, refl)

turn_of-stop :
    (net : NetError) (env : Env) (ctx : ℕ) (t : Turn) (p q : Spawner)
    → turn_of net env ctx t p ≡ stop q
    → is_done q.contexts ctx ≡ true
unfolding turn_of connect
turn_of-stop net env ctx t p q e = elim (Result-cases t.accept) [
  | inr (x, f) ↦ ground arith
  | inl (client, f) ↦ elim (Result-cases t.dial) [
    | inl (s, g) ↦ ground arith
    | inr (x, g) ↦ ground arith
  ]
]

loop-ends :
    (net : NetError) (env : Env) (ctx : ℕ) (ts : List Turn) (p q : Spawner)
    → loop net env ctx ts p ≡ some q
    → is_done q.contexts ctx ≡ true
unfolding loop
loop-ends net env ctx [] p q e = ground arith
loop-ends net env ctx (t ∷ ts) p q e = elim (Bool-cases (is_done (t.before p).contexts ctx)) [
  | inl d ↦ ground arith
  | inr d ↦ elim (Next-cases (turn_of net env ctx t (t.before p))) [
    | inl (r, f) ↦ ground (arith, turn_of-stop net env ctx t (t.before p) r f)
    | inr (r, f) ↦ loop-ends net env ctx ts r q (ground arith)
  ]
]

fail-done :
    (ctx : ℕ) (e : Error) (p : Spawner)
    → IsTree p.contexts
    → ctx < length p.contexts
    → is_done (fail ctx e p).contexts ctx ≡ true
unfolding fail
fail-done ctx e p t l = is_done-cancel_self p.contexts ctx (formatted e) t l

-- Whenever TcpListener returns, its context is cancelled, whatever else happens to the spawner: in
-- addListener a run of it never counts as one that forgot to cancel.
pub tcp_listener-ends :
    (net : NetError) (env : Env) (resolve : Resolve) (listens : Option Error) (ts : List Turn)
    (ctx : ℕ) (p q : Spawner)
    → IsTree p.contexts
    → ctx < length p.contexts
    → tcp_listener net env resolve listens ts ctx p ≡ some q
    → is_done q.contexts ctx ≡ true
unfolding tcp_listener
tcp_listener-ends net env resolve listens ts ctx p q t l e =
    elim (Result-cases (resolve p.proxy_addr)) [
      | inr (x, f) ↦ ground (arith, fail-done ctx x p t l)
      | inl (a, f) ↦ elim (Result-cases (resolve p.server_addr)) [
        | inr (x, g) ↦ ground (arith, fail-done ctx x p t l)
        | inl (b, g) ↦ elim (Option-cases listens) [
          | inr (x, h) ↦ ground (arith, fail-done ctx x p t l)
          | inl h ↦ loop-ends net env ctx ts p q (ground arith)
        ]
      ]
    ]

-- What others do meanwhile does not bring the listener's context back to life.
abbrev pub KeepsDead : ℕ → Meanwhile → Type 0
KeepsDead ctx m = (p : Spawner) → is_done p.contexts ctx ≡ true → is_done (m p).contexts ctx ≡ true

loop-dead :
    (net : NetError) (env : Env) (ctx : ℕ) (t : Turn) (ts : List Turn) (p : Spawner)
    → KeepsDead ctx t.before
    → is_done p.contexts ctx ≡ true
    → loop net env ctx (t ∷ ts) p ≡ some (t.before p)
unfolding loop
loop-dead net env ctx t ts p k d = rw (loop, k p d) refl

loop-go :
    (net : NetError) (env : Env) (ctx : ℕ) (t : Turn) (ts : List Turn) (p r : Spawner)
    → is_done (t.before p).contexts ctx ≡ false
    → turn_of net env ctx t (t.before p) ≡ go r
    → loop net env ctx (t ∷ ts) p ≡ loop net env ctx ts r
unfolding loop
loop-go net env ctx t ts p r d e = rw (loop, d, e) refl

-- The turn cannot accept a client, for another reason than a timeout, or cannot dial the server for one.
abbrev pub Fails : NetError → Turn → Error → Type 0
Fails net t e =
    ((t.accept ≡ err e) × (is_timeout_error net (some e) ≡ false))
    ⊎ ((client : Addr) × (t.accept ≡ ok client) × (t.dial ≡ err e))

turn_of-fail :
    (net : NetError) (env : Env) (ctx : ℕ) (t : Turn) (p : Spawner) (e : Error)
    → is_done (t.during p).contexts ctx ≡ false
    → Fails net t e
    → turn_of net env ctx t p ≡ go (fail ctx e (t.during p))
unfolding turn_of connect
turn_of-fail net env ctx t p e d (inl (a, n)) = rw (a, n) refl
turn_of-fail net env ctx t p e d (inr (client, a, f)) = rw (a, d, f) refl

-- A live listener that cannot accept a client, for another reason than a timeout, or cannot dial the
-- server for one, cancels its context, and takes no other client: it returns at its next turn, if the
-- contexts form a tree that has its own, which is still live when the call returns, and others do not
-- bring it back to life.
pub loop_gives_up :
    (net : NetError) (env : Env) (ctx : ℕ) (t u : Turn) (ts : List Turn) (p : Spawner) (e : Error)
    → let q = t.during (t.before p) in
      is_done (t.before p).contexts ctx ≡ false
      → is_done q.contexts ctx ≡ false
      → IsTree q.contexts
      → ctx < length q.contexts
      → KeepsDead ctx u.before
      → Fails net t e
      → loop net env ctx (t ∷ u ∷ ts) p ≡ some (u.before (fail ctx e q))
loop_gives_up net env ctx t u ts p e live open_ tree l k f =
    let q = t.during (t.before p) in
    loop-go net env ctx t (u ∷ ts) p (fail ctx e q) live
      (turn_of-fail net env ctx t (t.before p) e open_ f)
    ∙ loop-dead net env ctx u ts (fail ctx e q) k (fail-done ctx e q tree l)
