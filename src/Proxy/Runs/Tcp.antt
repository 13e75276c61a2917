-- ===== src/Proxy/Runs/Tcp.antt =====
-- TcpListener, proxy/tcp.go, as a part of a running spawner.
use ezproxy.Base.{
  ℕ, ◌+◌, ◌<◌, ◌≡◌, refl, sym, true, false, Option, some, List, [], ◌∷◌, arith, ◌⊎◌, ◌∙◌, inl, inr,
  Bool-cases, Option-cases,
}
use ezproxy.Errors.{Error, Result, ok, err, Result-cases}
use ezproxy.Context.{is_done}
use ezproxy.Handler.State.{word, Addr, Env, Spawner}
use ezproxy.Handler.Process.{Reach, here, next, adds}
use ezproxy.Proxy.Net.{NetError, is_timeout_error}
use ezproxy.Proxy.Tcp.{new_tcp_proxy, tcp_proxy}
use ezproxy.Proxy.Tcp.Listener.{
  fail, Turn, Next, stop, go, connect, turn_of, loop, Resolve, tcp_listener,
}
use ezproxy.Handler.Process.Runs.{process, Reach-trans, cancel-Reach}

-- The spawner that a turn leaves
abbrev pub after : Next → Spawner
after (stop p) = p
after (go p) = p

Next-cases : (x : Next) → ((r : Spawner) × (x ≡ stop r)) ⊎ ((r : Spawner) × (x ≡ go r))
Next-cases (stop r) = inl (r, refl)
Next-cases (go r) = inr (r, refl)

-- In every turn, others have taken steps only, before it and while it waits for a client, and an id is
-- left.
abbrev pub Fits : ℕ → NetError → Env → ℕ → List Turn → Spawner → Type 0
Fits n net env ctx [] p = Unit {0}
Fits n net env ctx (t ∷ ts) p =
    let q = t.before p in
    Reach (process n p) (process n q)
    × Reach (process n q) (process n (t.during q))
    × ((t.during q).current_id + 1 < word)
    × elim (turn_of net env ctx t q) as (λ _. Type 0) [
      | stop r ↦ Unit {0}
      | go r ↦ Fits n net env ctx ts r
    ]

connect-Reach :
    (n : ℕ) (env : Env) (ctx : ℕ) (client : Addr) (dial : Result Addr) (p : Spawner)
    → p.current_id + 1 < word
    → Reach (process n p) (process n (after (connect env ctx client dial p)))
unfolding connect fail
connect-Reach n env ctx client (err e) p l = cancel-Reach n ctx _ p
connect-Reach n env ctx client (ok server) p l =
    next here (adds env (tcp_proxy (new_tcp_proxy client server)) l refl)

-- A turn of the loop of TcpListener is, after what others do while it waits, a step or none.
pub turn_of-Reach :
    (n : ℕ) (net : NetError) (env : Env) (ctx : ℕ) (t : Turn) (p : Spawner)
    → (t.during p).current_id + 1 < word
    → Reach (process n (t.during p)) (process n (after (turn_of net env ctx t p)))
unfolding turn_of fail
turn_of-Reach n net env ctx t p l =
    let q = t.during p in
    elim (Result-cases t.accept) [
      | inr (x, a) ↦ elim (Bool-cases (is_timeout_error net (some x))) [
        | inl b ↦ rw (a, b) here
        | inr b ↦ rw (a, b) (cancel-Reach n ctx _ q)
      ]
      | inl (client, a) ↦ elim (Bool-cases (is_done q.contexts ctx)) [
        | inl d ↦ rw (a, d) here
        | inr d ↦ rw (a, d) (connect-Reach n env ctx client t.dial q l)
      ]
    ]

-- The loop after a turn
abbrev continued : NetError → Env → ℕ → List Turn → Next → Option Spawner
continued net env ctx ts (stop r) = some r
continued net env ctx ts (go r) = loop net env ctx ts r

loop_over :
    (net : NetError) (env : Env) (ctx : ℕ) (t : Turn) (ts : List Turn) (p : Spawner)
    → is_done (t.before p).contexts ctx ≡ true
    → loop net env ctx (t ∷ ts) p ≡ some (t.before p)
unfolding loop
loop_over net env ctx t ts p d = rw (loop, d) refl

loop-turn_of :
    (net : NetError) (env : Env) (ctx : ℕ) (t : Turn) (ts : List Turn) (p : Spawner)
    → is_done (t.before p).contexts ctx ≡ false
    → loop net env ctx (t ∷ ts) p ≡ continued net env ctx ts (turn_of net env ctx t (t.before p))
unfolding loop
loop-turn_of net env ctx t ts p d =
    rw (loop, d)
      (elim (Next-cases (turn_of net env ctx t (t.before p))) [
        | inl (r, e) ↦ rw e refl
        | inr (r, e) ↦ rw e refl
      ])

-- A run goes on after a turn that leaves the spawner as `after` says.
continued-Reach :
    (n : ℕ) (net : NetError) (env : Env) (ctx : ℕ) (ts : List Turn) (p q : Spawner) (x : Next)
    → ((r : Spawner)
        → Fits n net env ctx ts r
        → loop net env ctx ts r ≡ some q
        → Reach (process n r) (process n q))
    → Reach (process n p) (process n (after x))
    → elim x as (λ _. Type 0) [ stop r ↦ Unit {0} | go r ↦ Fits n net env ctx ts r ]
    → continued net env ctx ts x ≡ some q
    → Reach (process n p) (process n q)
continued-Reach n net env ctx ts p q (stop r) ih a f e =
    let same : r ≡ q = ground (arith, e) in rw (← same) a
continued-Reach n net env ctx ts p q (go r) ih a f e = Reach-trans a (ih r f e)

loop-Reach :
    (n : ℕ) (net : NetError) (env : Env) (ctx : ℕ) (ts : List Turn) (p q : Spawner)
    → Fits n net env ctx ts p
    → loop net env ctx ts p ≡ some q
    → Reach (process n p) (process n q)
unfolding loop
loop-Reach n net env ctx [] p q f e = absurd (ground arith)
loop-Reach n net env ctx (t ∷ ts) p q (others, waits, left, f) e =
    let m = t.before p in
    elim (Bool-cases (is_done m.contexts ctx)) [
      | inl d ↦
          let s = sym (loop_over net env ctx t ts p d) ∙ e in
          let same : m ≡ q = ground (arith, s) in rw (← same) others
      | inr d ↦
          continued-Reach n net env ctx ts p q (turn_of net env ctx t m)
            (λ r g h. loop-Reach n net env ctx ts r q g h)
            (Reach-trans others (Reach-trans waits (turn_of-Reach n net env ctx t m left))) f
            (sym (loop-turn_of net env ctx t ts p d) ∙ e)
    ]

-- TcpListener takes part in a run: from its start to its return, for whatever reason it returns, the
-- spawner has gone through steps of the process only, if what others do between its turns and while it
-- waits for a client is steps and no client is accepted with the last id taken.
pub tcp_listener-Reach :
    (n : ℕ) (net : NetError) (env : Env) (resolve : Resolve) (listens : Option Error)
    (ts : List Turn) (ctx : ℕ) (p q : Spawner)
    → Fits n net env ctx ts p
    → tcp_listener net env resolve listens ts ctx p ≡ some q
    → Reach (process n p) (process n q)
unfolding tcp_listener fail
tcp_listener-Reach n net env resolve listens ts ctx p q f e =
    elim (Result-cases (resolve p.proxy_addr)) [
      | inr (x, a) ↦ gives_up x (ground arith)
      | inl (proxy, a) ↦ elim (Result-cases (resolve p.server_addr)) [
        | inr (x, b) ↦ gives_up x (ground arith)
        | inl (server, b) ↦ elim (Option-cases listens) [
          | inr (x, c) ↦ gives_up x (ground arith)
          | inl c ↦ loop-Reach n net env ctx ts p q f (ground arith)
        ]
      ]
    ]
  where
    gives_up : (x : Error) → fail ctx x p ≡ q → Reach (process n p) (process n q)
    gives_up x same = rw (← same) (cancel-Reach n ctx _ p)
