-- ===== src/Integration/Threads/Laws.antt =====
-- When the program of the integration test ends: main_integration.go.
use ezproxy.Base.{ℕ, ◌≡◌, ◌≢◌, Bool, none, some, arith, Option-cases, inl, inr}
use ezproxy.Errors.{ok}
use ezproxy.Context.{Contexts, with_cancel, cause_of}
use ezproxy.Handler.State.{Addr}
use ezproxy.Integration.Threads.{ThreadManager, new_thread_manager, run, finish, join, joins, start}

-- While the test runs, Join of main waits unless the context of its threads is over, and then returns the
-- cause; once the test has ended, it returns.
pub start-join :
    (first : Bool) (a b : Addr) (root : ℕ) (s u : Contexts) (t : ThreadManager)
    → start (ok a) (ok b) root s ≡ joins t u
    → (v : Contexts)
    → (join first v t ≡ elim (cause_of v t.ctx) [ none ↦ none | some e ↦ some (some e) ])
      × (join first v (finish t) ≢ none)
unfolding start new_thread_manager run finish join with_cancel
start-join first a b root s u t e v = elim (Option-cases (cause_of v t.ctx)) [
  | inl live ↦ (ground arith, λ f. ground arith)
  | inr (x, dead) ↦ (ground arith, λ f. ground arith)
]
