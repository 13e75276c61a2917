-- ===== src/Integration/Laws.antt =====
-- What the integration test comes to: integration/tcp_integration.go.
use ezproxy.Base.{
  ℕ, ◌<◌, ◌≡◌, ◌≢◌, refl, sym, ◌∙◌, some, [], ◌∷◌, length, ◌==◌, arith, Bool-cases, Option-cases,
  ◌⊎◌, inl, inr,
}
use ezproxy.Errors.{testing_completed, Result, Result-cases}
use ezproxy.Context.{Contexts, with_cancel, cancel, IsTree}
use ezproxy.Handler.State.{Addr, Spawner}
use ezproxy.Handler.Listener.{Listener}
use ezproxy.Handler.Lifecycle.{
  fresh_spawner, new_proxy_spawner, set_error_callback, try_set_filter_callback, begin_close,
}
use ezproxy.Handler.Life.Growth.{Reach-Grows}
use ezproxy.Handler.Pruner.{start_pruner}
use ezproxy.Handler.Process.{Reach, here, next, handles_errors, filters, closes}
use ezproxy.Handler.Process.Laws.{IsRunning, Reach-IsRunning, close-times_out}
use ezproxy.Handler.Process.Start.{
  newborn-IsRunning, new_proxy_spawner-meanwhile, new_proxy_spawner-contexts,
  new_proxy_spawner-IsRunning, start_pruner-IsRunning,
}
use ezproxy.Handler.Process.Runs.{process, Reach-trans, cancel-Reach}
use ezproxy.Integration.{
  Setup, over, ready, late, World, passes, equal_bytes, echo_data, close_spawner, exchange,
  with_spawner, tcp_test_server,
}

Setup-cases : (x : Setup) → (x ≡ over) ⊎ ((x ≡ late) ⊎ (x ≡ ready))
Setup-cases over = inl refl
Setup-cases late = inr (inl refl)
Setup-cases ready = inr (inr refl)

-- What others do is steps of the process.
abbrev pub IsHonest : (Spawner → Spawner) → Type 0
IsHonest m = (n : ℕ) (p : Spawner) → (k : ℕ) × Reach (process n p) (process k (m p))

-- What others do is steps of the process, after its pruner has added itself to the wait group.
abbrev pub Prunes : (Spawner → Spawner) → Type 0
Prunes m = (n : ℕ) (p : Spawner) → (k : ℕ) × Reach (process n (start_pruner p)) (process k (m p))

close_spawner-fails :
    (w : World) (n c : ℕ) (p : Spawner)
    → Prunes w.meanwhile
    → IsHonest w.closing
    → IsRunning 0 (process n p)
    → close_spawner w c p ≢ passes
unfolding close_spawner
close_spawner-fails w n c p m h r e =
    let (k, a) = m n p in
    let q = w.meanwhile p in
    let dying : Spawner = record q { contexts = cancel q.contexts c testing_completed } in
    elim (Option-cases (begin_close dying)) [
      | inl f ↦ ground arith
      | inr (s, f) ↦
          let (j, b) = h k s in
          let to_end =
            Reach-trans a
              (Reach-trans (next (cancel-Reach k c testing_completed q) (closes s f refl)) b) in
          let late = close-times_out (start_pruner-IsRunning (process n p) r) to_end in
          ground (arith, late)
    ]

exchange-fails :
    (w : World) (n c : ℕ) (p : Spawner)
    → Prunes w.meanwhile
    → IsHonest w.closing
    → IsRunning 0 (process n p)
    → exchange w c p ≢ passes
unfolding exchange
exchange-fails w n c p m h r e = elim (Option-cases w.dial) [
  | inr (x, f) ↦ ground arith
  | inl f ↦ elim (Result-cases w.write) [
    | inr (x, g) ↦ ground arith
    | inl (k, g) ↦ elim (Bool-cases (k == length echo_data)) [
      | inr i ↦ ground arith
      | inl i ↦ elim (Result-cases w.read) [
        | inr (x, j) ↦ ground arith
        | inl (bytes, j) ↦ elim (Bool-cases (equal_bytes bytes echo_data)) [
          | inr d ↦ ground arith
          | inl d ↦ close_spawner-fails w n c p m h r (ground arith)
        ]
      ]
    ]
  ]
]

-- The filter of the test is installed by a step, if it is.
filtered-Reach :
    (filter log c n : ℕ) (p : Spawner)
    → c < length p.contexts
    → Reach
        (process n p)
        (process n (try_set_filter_callback (some filter) c (set_error_callback (some log) p)).1)
unfolding set_error_callback
filtered-Reach filter log c n p l =
    next (next here (handles_errors (some log) refl)) (filters (some filter) c l refl)

with_spawner-fails :
    (w : World) (tcp : Listener) (log filter : ℕ) (server proxy : Addr) (c : ℕ) (s : Contexts)
    → IsHonest w.listening
    → Prunes w.meanwhile
    → IsHonest w.closing
    → IsTree s
    → c < length s
    → with_spawner w tcp log filter server proxy c s ≢ passes
unfolding with_spawner
with_spawner-fails w tcp log filter server proxy c s m1 m2 m3 t l e =
    elim (Result-cases (new_proxy_spawner server proxy c s (tcp ∷ []) w.listening)) [
      | inr (x, f) ↦ ground arith
      | inl (p, f) ↦
          let fresh = fresh_spawner server proxy c s in
          let (k, a) = m1 0 fresh in
          let f' = sym (new_proxy_spawner-meanwhile server proxy c s (tcp ∷ []) w.listening) ∙ f in
          let r =
            (new_proxy_spawner-IsRunning server proxy c s (tcp ∷ []) (process k (w.listening fresh))
              (process k p) p t l a f' here).0 in
          let grown = Reach-Grows (newborn-IsRunning server proxy c s t l) a in
          let kept =
            new_proxy_spawner-contexts server proxy c s (tcp ∷ []) (w.listening fresh) p f' in
          let there : c < length p.contexts =
            rw kept (unfold fresh_spawner with_cancel in omega (arith, l, grown.longer)) in
          let b = filtered-Reach filter log c k p there in
          elim (Option-cases
            (try_set_filter_callback (some filter) c (set_error_callback (some log) p)).0) [
              | inr (x, g) ↦ ground arith
              | inl g ↦ exchange-fails w k c _ m2 m3 (Reach-IsRunning r b) (ground arith)
            ]
    ]

-- The integration test of TCP never returns nil, whatever the sockets do, if what others do is steps of
-- the spawner's process, among them the start of its pruner before the test closes it, and the contexts
-- form a tree when the echo server is there: even after a perfect echo, Close of the spawner waits for its
-- pruner and returns the timeout.
pub tcp_test_server-fails :
    (w : World) (to_tcp : Addr → Result Addr) (tcp : Listener) (log filter ctx : ℕ) (s : Contexts)
    (server proxy : Addr)
    → IsHonest w.listening
    → Prunes w.meanwhile
    → IsHonest w.closing
    → IsTree (w.waited (with_cancel s ctx).0)
    → length s < length (w.waited (with_cancel s ctx).0)
    → tcp_test_server w to_tcp tcp log filter ctx s server proxy ≢ passes
unfolding tcp_test_server with_cancel
tcp_test_server-fails w to_tcp tcp log filter ctx s server proxy m1 m2 m3 t l e =
    elim (Result-cases (to_tcp proxy)) [
      | inr (x, f) ↦ ground arith
      | inl (px, f) ↦ elim (Setup-cases w.setup) [
        | inl g ↦ ground arith
        | inr (inl g) ↦ ground arith
        | inr (inr g) ↦
            with_spawner-fails w tcp log filter server proxy (length s) _ m1 m2 m3 t l
              (ground arith)
      ]
    ]
