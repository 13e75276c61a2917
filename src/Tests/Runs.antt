-- ===== src/Tests/Runs.antt =====
-- Listeners, contexts and whole runs of a spawner: handler/spawner.go.
use ezproxy.Base.{Returns, ◌+◌, arith, ◌≡◌, refl, none, some, ◌∷◌, [], inr}
use ezproxy.Errors.{proxy_retry, spawner_closed_ok, close_timeout}
use ezproxy.Context.{Contexts, cause_of, is_done, with_cancel, cancel, IsTree}
use ezproxy.Context.Laws.{
  cause_of-cancel, after_cancel, cancel-IsTree, with_cancel-IsTree, length-cancel, cancel_idle,
}
use ezproxy.Handler.State.{Spawner}
use ezproxy.Handler.Invariant.Frame.{cancel-IsValid}
use ezproxy.Handler.Listener.{Listener, run_listener, listen_loop, add_listener}
use ezproxy.Handler.Listener.Laws.{runs, AlwaysRetries, runs-add_listener, IsEnd, listen_loop-IsEnd}
use ezproxy.Handler.Lifecycle.{fresh_spawner, end_close}
use ezproxy.Handler.Process.{Process, Reach, cancels, here, next}
use ezproxy.Handler.Process.Laws.{IsRunning, Reach-IsRunning, close-times_out}
use ezproxy.Handler.Life.{stage, Run}
use ezproxy.Handler.Life.Laws.{Reach-Run}
use ezproxy.Tests.Data.{server, local, busy, busy-IsValid, five_contexts, five_contexts-IsTree}

cause_of-cancel_example :
    cause_of (cancel five_contexts 1 spawner_closed_ok) 2
    ≡ after_cancel five_contexts 1 spawner_closed_ok 2
cause_of-cancel_example = cause_of-cancel five_contexts 1 2 spawner_closed_ok five_contexts-IsTree

abbrev root : Contexts
root = record { parent = none; cause = none } ∷ []

-- A listener that ends each run with ErrProxyRetry.
abbrev retrying : Listener
retrying ctx p = record p { contexts = cancel p.contexts ctx proxy_retry }

listen_loop-IsEnd_example : IsEnd retrying (listen_loop retrying 3 busy)
listen_loop-IsEnd_example =
    listen_loop-IsEnd retrying (λ c p v. cancel-IsValid p c proxy_retry v) 3 busy busy-IsValid

retrying-AlwaysRetries : AlwaysRetries retrying
unfolding run_listener is_done with_cancel cause_of cancel
retrying-AlwaysRetries p (t, l, live) =
    let (s, c) = with_cancel p.contexts p.context in
    let tree : IsTree s = with_cancel-IsTree p.contexts p.context t l in
    let same : cancel p.contexts c proxy_retry ≡ p.contexts =
      cancel_idle p.contexts c proxy_retry t (inr (omega arith)) in
    (
      proxy_retry,
      ground (arith, same),
      refl,
      (
        cancel-IsTree s c proxy_retry tree,
        omega (arith, length-cancel s c proxy_retry),
        ground (arith, same),
      ),
    )

abbrev idle : Spawner
idle = fresh_spawner server local 0 root

runs-add_listener_example :
    Returns (add_listener retrying idle) (λ q. runs q.log ≡ runs idle.log + 4)
unfolding fresh_spawner is_done with_cancel cause_of
runs-add_listener_example =
    runs-add_listener retrying (λ c p. omega arith) (λ c p. refl) retrying-AlwaysRetries idle
      (((omega arith, λ e. e), (tt, tt)), omega arith, refl)

abbrev pub started : Process
started = record { spawner = busy; listeners = 0 }

pub started-IsRunning : IsRunning 1 started
started-IsRunning = record { valid = busy-IsValid; awaited = omega arith }

abbrev ended : Process
ended = record {
  spawner = record busy { contexts = cancel five_contexts 1 spawner_closed_ok };
  listeners = 0;
}

ending : Reach started ended
ending = next here (cancels 1 spawner_closed_ok refl)

Reach-IsRunning_example : IsRunning 1 ended
Reach-IsRunning_example = Reach-IsRunning started-IsRunning ending

close-times_out_example : end_close ended.spawner ≡ some close_timeout
close-times_out_example = close-times_out started-IsRunning ending

Reach-Run_example : Run (stage 0 busy) (stage 0 ended.spawner)
Reach-Run_example = Reach-Run 0 started-IsRunning ending
