-- ===== src/Handler/Listener/Laws.antt =====
-- addListener, handler/spawner.go: how often a listener runs, and what its end means.
use ezproxy.Base.{
  ℕ, zero, suc, ◌+◌, ◌<◌, ◌≤◌, ◌≡◌, refl, true, false, Option, none, some, List, [], ◌∷◌, length,
  Returns, ◌==◌, arith, Bool-cases, ◌⊎◌, inl, inr,
}
use ezproxy.Errors.{Error, is_proxy_retry, is_proxy_closed_ok, no_cancel, proxy_max_retries}
use ezproxy.Context.{cause_of, is_done, IsTree}
use ezproxy.Context.Laws.{is_done-cancel_self}
use ezproxy.Handler.State.{Effect, listened, Spawner}
use ezproxy.Handler.Invariant.{IsValid}
use ezproxy.Handler.Invariant.Frame.{with_cancel-IsValid, log-IsValid}
use ezproxy.Handler.Container.Store.{handle_error-IsValid}
use ezproxy.Handler.Send.{handle_error}
use ezproxy.Handler.Listener.{
  Listener, wg_done, add_listener, cancel_spawner, run_listener, after_run, give_up, listen_loop,
}

-- How often a log says that a listener was run.
abbrev pub runs : List Effect → ℕ
runs [] = 0
runs (listened c ∷ l) = suc (runs l)
runs (_ ∷ l) = runs l

-- The listener does not start listeners.
abbrev pub IsQuiet : Listener → Type 0
IsQuiet h = (c : ℕ) (p : Spawner) → runs (h c p).log ≡ runs p.log

-- Whatever the listener does through its IConnectionAdder keeps the spawner valid.
abbrev pub Respects : Listener → Type 0
Respects h = (c : ℕ) (p : Spawner) → IsValid p → IsValid (h c p)

-- The spawner is alive, and its contexts are in order.
abbrev pub IsOpen : Spawner → Type 0
IsOpen p =
    IsTree p.contexts × (p.context < length p.contexts) × (is_done p.contexts p.context ≡ false)

-- Every run of the listener under a live spawner asks for another, and leaves the spawner alive.
abbrev pub AlwaysRetries : Listener → Type 0
AlwaysRetries h =
    (p : Spawner)
    → IsOpen p
    → (e : Error) × (cause_of (run_listener h p).0.contexts (run_listener h p).1 ≡ some e)
      × (is_proxy_retry e ≡ true)
      × IsOpen (run_listener h p).0

runs-handle_error :
    (e : Error) (pc : Option ℕ) (p : Spawner) → runs (handle_error e pc p).log ≡ runs p.log
unfolding handle_error
runs-handle_error e pc p = ground arith

module _ (h : Listener) (quiet : IsQuiet h) where
  runs-run_listener : (p : Spawner) → runs (run_listener h p).0.log ≡ suc (runs p.log)
  unfolding run_listener
  runs-run_listener p = quiet _ _

  runs-after_run :
      (o : Option Error) (again p : Spawner) (n : ℕ)
      → runs p.log ≤ n
      → runs again.log ≤ n
      → runs (after_run o again p).log ≤ n
  unfolding after_run
  runs-after_run none again p n l m = l
  runs-after_run (some e) again p n l m = ground (arith, runs-handle_error e none p)

  runs-give_up : (o : Option Error) (p : Spawner) → runs (give_up o p).log ≡ runs p.log
  unfolding give_up
  runs-give_up none p = refl
  runs-give_up (some e) p = runs-handle_error proxy_max_retries none p

  -- A listener that starts no listeners itself runs at most once more than it has retries left,
  -- whatever its runs end with.
  pub runs-listen_loop :
      (left : ℕ) (p : Spawner) → runs (listen_loop h left p).log ≤ runs p.log + suc left
  unfolding listen_loop
  runs-listen_loop zero p =
      let (q, c) = run_listener h p in
      let o = cause_of q.contexts c in
      runs-after_run o (give_up o q) q _ (omega (arith, runs-run_listener p))
        (omega (arith, runs-run_listener p, runs-give_up o q))
  runs-listen_loop (suc left) p =
      let (q, c) = run_listener h p in
      runs-after_run (cause_of q.contexts c) (listen_loop h left q) q _
        (omega (arith, runs-run_listener p))
        (omega (arith, runs-run_listener p, runs-listen_loop left q))

  -- A listener that starts no listeners itself, and that under a live spawner always asks for a retry
  -- and leaves the spawner alive, runs once more than it has retries left.
  pub runs-listen_loop_retry :
      AlwaysRetries h
      → (left : ℕ) (p : Spawner) → IsOpen p
      → runs (listen_loop h left p).log ≡ runs p.log + suc left
  unfolding listen_loop after_run
  runs-listen_loop_retry retries zero p v =
      let (e, c, r, w) = retries p v in
      rw c (rw r (omega (arith, runs-run_listener p, runs-give_up (some e) (run_listener h p).0)))
  runs-listen_loop_retry retries (suc left) p v =
      let (e, c, r, w) = retries p v in
      rw c (
        rw r (
          omega (
            arith,
            runs-run_listener p,
            runs-listen_loop_retry retries left (run_listener h p).0 w,
          )))

-- The listener gives back no count of the wait group that it was not given.
abbrev pub KeepsCount : Listener → Type 0
KeepsCount h = (c : ℕ) (p : Spawner) → p.wg ≤ (h c p).wg

handle_error-wg : (e : Error) (pc : Option ℕ) (p : Spawner) → (handle_error e pc p).wg ≡ p.wg
unfolding handle_error
handle_error-wg e pc p = ground arith

module _ (h : Listener) (keeps : KeepsCount h) where
  run_listener-wg : (p : Spawner) → p.wg ≤ (run_listener h p).0.wg
  unfolding run_listener
  run_listener-wg p = keeps _ _

  after_run-wg :
      (o : Option Error) (again p : Spawner) (n : ℕ)
      → n ≤ p.wg
      → n ≤ again.wg
      → n ≤ (after_run o again p).wg
  unfolding after_run cancel_spawner
  after_run-wg none again p n l m = l
  after_run-wg (some e) again p n l m = ground (arith, handle_error-wg e none p)

  give_up-wg : (o : Option Error) (p : Spawner) → (give_up o p).wg ≡ p.wg
  unfolding give_up cancel_spawner
  give_up-wg none p = refl
  give_up-wg (some e) p = handle_error-wg proxy_max_retries none p

  listen_loop-wg : (left : ℕ) (p : Spawner) → p.wg ≤ (listen_loop h left p).wg
  unfolding listen_loop
  listen_loop-wg zero p =
      let (q, c) = run_listener h p in
      let o = cause_of q.contexts c in
      after_run-wg o (give_up o q) q p.wg (run_listener-wg p)
        (omega (arith, run_listener-wg p, give_up-wg o q))
  listen_loop-wg (suc left) p =
      let (q, c) = run_listener h p in
      after_run-wg (cause_of q.contexts c) (listen_loop h left q) q p.wg (run_listener-wg p)
        (omega (arith, run_listener-wg p, listen_loop-wg left q))

  -- addListener of a live spawner returns, and has run a listener that always asks for a retry, and leaves
  -- the spawner alive, exactly four times, if the listener starts no listeners itself and gives back no
  -- count of the wait group that it was not given.
  pub runs-add_listener :
      IsQuiet h
      → AlwaysRetries h
      → (p : Spawner) → IsOpen p
      → Returns (add_listener h p) (λ q. runs q.log ≡ runs p.log + 4)
  unfolding add_listener wg_done
  runs-add_listener quiet retries p (t, l, live) =
      let counted : Spawner = record p { wg = p.wg + 1 } in
      let w = listen_loop-wg 3 counted in
      let n = runs-listen_loop_retry h quiet retries 3 counted (t, l, live) in
      rw live (elim (Bool-cases ((listen_loop h 3 counted).wg == 0)) [
        | inl z ↦ absurd (ground (arith, w))
        | inr z ↦ rw z n
      ])

-- The state is that after a run of the listener whose context was cancelled with ErrProxyClosedOk.
abbrev pub EndedOk : Listener → Spawner → Type 0
EndedOk h p =
    (q : Spawner) × (e : Error) × (p ≡ (run_listener h q).0)
    × (cause_of (run_listener h q).0.contexts (run_listener h q).1 ≡ some e)
    × (is_proxy_closed_ok e ≡ true)

-- A listener that ends leaves a cancelled spawner, or was closed in order.
abbrev pub IsEnd : Listener → Spawner → Type 0
IsEnd h p = (is_done p.contexts p.context ≡ true) ⊎ EndedOk h p

module _ (h : Listener) (respects : Respects h) where
  run_listener-IsValid : (p : Spawner) → IsValid p → IsValid (run_listener h p).0
  unfolding run_listener
  run_listener-IsValid p v =
      respects _ _ (log-IsValid _ _ (with_cancel-IsValid p p.context v v.rooted))

  cancel_spawner-IsEnd : (e : Error) (p : Spawner) → IsValid p → IsEnd h (cancel_spawner e p)
  unfolding cancel_spawner
  cancel_spawner-IsEnd e p v = inl (is_done-cancel_self p.contexts p.context e v.tree v.rooted)

  after_run-IsEnd :
      (o : Option Error) (again p q : Spawner)
      → IsValid q
      → q ≡ (run_listener h p).0
      → cause_of (run_listener h p).0.contexts (run_listener h p).1 ≡ o
      → ((e : Error) → o ≡ some e → is_proxy_retry e ≡ true → IsEnd h again)
      → IsEnd h (after_run o again q)
  unfolding after_run
  after_run-IsEnd none again p q v s e k = cancel_spawner-IsEnd no_cancel q v
  after_run-IsEnd (some x) again p q v s e k = elim (Bool-cases (is_proxy_retry x)) [
    | inl retry ↦ rw retry (k x refl retry)
    | inr other ↦ elim (Bool-cases (is_proxy_closed_ok x)) [
      | inl fine ↦ rw (other, fine) (inr (p, x, s, e, fine))
      | inr bad ↦ rw (other, bad) (cancel_spawner-IsEnd x _ (handle_error-IsValid x none q v))
    ]
  ]

  -- Of a listener whose runs keep a valid spawner valid, the loop ends only with a cancelled spawner,
  -- or after a run whose context was cancelled with ErrProxyClosedOk.
  pub listen_loop-IsEnd : (left : ℕ) (p : Spawner) → IsValid p → IsEnd h (listen_loop h left p)
  unfolding listen_loop give_up
  listen_loop-IsEnd zero p v =
      let w = run_listener-IsValid p v in
      let q = (run_listener h p).0 in
      after_run-IsEnd _ _ p q w refl refl
        (λ x e _. rw e (cancel_spawner-IsEnd x _ (handle_error-IsValid proxy_max_retries none q w)))
  listen_loop-IsEnd (suc left) p v =
      let w = run_listener-IsValid p v in
      let q = (run_listener h p).0 in
      after_run-IsEnd _ _ p q w refl refl (λ x e _. listen_loop-IsEnd left q w)
