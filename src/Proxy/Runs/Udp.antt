-- ===== src/Proxy/Runs/Udp.antt =====
-- UdpListener, proxy/udp.go, as a part of a running spawner.
use ezproxy.Base.{
  ℕ, ◌+◌, ◌<◌, ◌≡◌, refl, sym, ap, true, false, Option, none, some, List, [], ◌∷◌, arith, ◌⊎◌, ◌∙◌,
  inl, inr, Bool-cases, Option-cases,
}
use ezproxy.Errors.{Error, Result, ok, err, Result-cases}
use ezproxy.Context.{is_done}
use ezproxy.Handler.State.{word, Addr, Env, Spawner}
use ezproxy.Handler.Container.{new_proxy_container}
use ezproxy.Handler.Connections.{add_connection}
use ezproxy.Handler.Process.{Reach, here, next, adds}
use ezproxy.Proxy.Net.{compare_net_addr, Datagram, arrived, unread}
use ezproxy.Proxy.Udp.{new_udp_proxy, udp_proxy}
use ezproxy.Proxy.Udp.Listener.{
  fail, Turn, Next, stop, go, is_current, added, receive, turn_of, loop, Resolve, udp_listener,
}
use ezproxy.Handler.Process.Runs.{process, Reach-trans, cancel-Reach}

-- The spawner that a turn leaves
abbrev pub after : Next → Spawner
after (stop p) = p
after (go id p) = p

Next-cases :
    (x : Next) → ((r : Spawner) × (x ≡ stop r)) ⊎ ((id : Option ℕ) × (r : Spawner) × (x ≡ go id r))
Next-cases (stop r) = inl (r, refl)
Next-cases (go id r) = inr (id, r, refl)

-- In every turn, others have taken steps only, and an id is left.
abbrev pub Fits : ℕ → Env → Addr → ℕ → List Turn → Option ℕ → Spawner → Type 0
Fits n env server ctx [] id p = Unit {0}
Fits n env server ctx (t ∷ ts) id p =
    let q = t.meanwhile p in
    Reach (process n p) (process n q)
    × (q.current_id + 1 < word)
    × elim (turn_of env server ctx t id q) [
      | stop r ↦ Unit {0}
      | go id' r ↦ Fits n env server ctx ts id' r
    ]

after-added : (x : Result ℕ × Spawner) → after (added x) ≡ x.1
unfolding added
after-added (ok h, p) = refl
after-added (err e, p) = refl

receive-Reach :
    (n : ℕ) (env : Env) (server : Addr) (d : Datagram) (p : Spawner)
    → p.current_id + 1 < word
    → Reach (process n p) (process n (after (receive env server d p)))
unfolding receive
receive-Reach n env server (unread e) p l = here
receive-Reach n env server (arrived bytes from) p l =
    elim (Bool-cases (compare_net_addr server from)) [
      | inl e ↦ rw e here
      | inr e ↦
          let px = udp_proxy (new_udp_proxy from server bytes) in
          rw e (
            next here (
              adds env px l
                (ap (process n) (after-added (add_connection (new_proxy_container env) px p)))))
    ]

-- A turn of the loop of UdpListener is a step of the process, or none.
pub turn_of-Reach :
    (n : ℕ) (env : Env) (server : Addr) (ctx : ℕ) (t : Turn) (id : Option ℕ) (p : Spawner)
    → p.current_id + 1 < word
    → Reach (process n p) (process n (after (turn_of env server ctx t id p)))
unfolding turn_of fail
turn_of-Reach n env server ctx t none p l = receive-Reach n env server t.read p l
turn_of-Reach n env server ctx t (some id) p l = elim (Bool-cases (is_current id p)) [
  | inl e ↦ rw e here
  | inr e ↦ elim (Option-cases t.relisten) [
    | inl f ↦ rw (e, f) (receive-Reach n env server t.read p l)
    | inr (x, f) ↦ rw (e, f) (cancel-Reach n ctx _ p)
  ]
]

-- The loop after a turn
abbrev continued : Env → Addr → ℕ → List Turn → Next → Option Spawner
continued env server ctx ts (stop r) = some r
continued env server ctx ts (go id r) = loop env server ctx ts id r

loop_over :
    (env : Env) (server : Addr) (ctx : ℕ) (t : Turn) (ts : List Turn) (id : Option ℕ) (p : Spawner)
    → is_done (t.meanwhile p).contexts ctx ≡ true
    → loop env server ctx (t ∷ ts) id p ≡ some (t.meanwhile p)
unfolding loop
loop_over env server ctx t ts id p d = rw (loop, d) refl

loop-turn_of :
    (env : Env) (server : Addr) (ctx : ℕ) (t : Turn) (ts : List Turn) (id : Option ℕ) (p : Spawner)
    → is_done (t.meanwhile p).contexts ctx ≡ false
    → loop env server ctx (t ∷ ts) id p
      ≡ continued env server ctx ts (turn_of env server ctx t id (t.meanwhile p))
unfolding loop
loop-turn_of env server ctx t ts id p d =
    rw (loop, d)
      (elim (Next-cases (turn_of env server ctx t id (t.meanwhile p))) [
        | inl (r, e) ↦ rw e refl
        | inr (k, r, e) ↦ rw e refl
      ])

-- A run goes on after a turn that leaves the spawner as `after` says.
continued-Reach :
    (n : ℕ) (env : Env) (server : Addr) (ctx : ℕ) (ts : List Turn) (p q : Spawner) (x : Next)
    → ((id : Option ℕ) (r : Spawner)
        → Fits n env server ctx ts id r
        → loop env server ctx ts id r ≡ some q
        → Reach (process n r) (process n q))
    → Reach (process n p) (process n (after x))
    → elim x as (λ _. Type 0) [ stop r ↦ Unit {0} | go id r ↦ Fits n env server ctx ts id r ]
    → continued env server ctx ts x ≡ some q
    → Reach (process n p) (process n q)
continued-Reach n env server ctx ts p q (stop r) ih a f e =
    let same : r ≡ q = ground (arith, e) in rw (← same) a
continued-Reach n env server ctx ts p q (go id r) ih a f e = Reach-trans a (ih id r f e)

loop-Reach :
    (n : ℕ) (env : Env) (server : Addr) (ctx : ℕ) (ts : List Turn) (id : Option ℕ) (p q : Spawner)
    → Fits n env server ctx ts id p
    → loop env server ctx ts id p ≡ some q
    → Reach (process n p) (process n q)
unfolding loop
loop-Reach n env server ctx [] id p q f e = absurd (ground arith)
loop-Reach n env server ctx (t ∷ ts) id p q (others, left, f) e =
    let m = t.meanwhile p in
    elim (Bool-cases (is_done m.contexts ctx)) [
      | inl d ↦
          let s = sym (loop_over env server ctx t ts id p d) ∙ e in
          let same : m ≡ q = ground (arith, s) in rw (← same) others
      | inr d ↦
          continued-Reach n env server ctx ts p q (turn_of env server ctx t id m)
            (λ k r g h. loop-Reach n env server ctx ts k r q g h)
            (Reach-trans others (turn_of-Reach n env server ctx t id m left)) f
            (sym (loop-turn_of env server ctx t ts id p d) ∙ e)
    ]

-- UdpListener takes part in a run: from its start to its return, for whatever reason it returns, the
-- spawner has gone through steps of the process only, if what others do between its turns is steps
-- and no turn starts with the last id taken.
pub udp_listener-Reach :
    (n : ℕ) (env : Env) (resolve : Resolve) (listens : Option Error) (ts : List Turn) (ctx : ℕ)
    (p q : Spawner)
    → ((server : Addr) → resolve p.server_addr ≡ ok server → Fits n env server ctx ts none p)
    → udp_listener env resolve listens ts ctx p ≡ some q
    → Reach (process n p) (process n q)
unfolding udp_listener fail
udp_listener-Reach n env resolve listens ts ctx p q f e =
    elim (Result-cases (resolve p.proxy_addr)) [
      | inr (x, a) ↦ gives_up x (ground arith)
      | inl (proxy, a) ↦ elim (Result-cases (resolve p.server_addr)) [
        | inr (x, b) ↦ gives_up x (ground arith)
        | inl (server, b) ↦ elim (Option-cases listens) [
          | inr (x, c) ↦ gives_up x (ground arith)
          | inl c ↦ loop-Reach n env server ctx ts none p q (f server b) (ground arith)
        ]
      ]
    ]
  where
    gives_up : (x : Error) → fail ctx x p ≡ q → Reach (process n p) (process n q)
    gives_up x same = rw (← same) (cancel-Reach n ctx _ p)
