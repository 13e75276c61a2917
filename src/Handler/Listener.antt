-- ===== src/Handler/Listener.antt =====
-- ProxySpawner.addListener, handler/spawner.go: a listener is run again while it asks for it.
pub mod Laws
use ezproxy.Base.{ℕ, zero, suc, ◌+◌, ◌-◌, Option, none, some, ◌==◌, if◌then◌else◌}
use ezproxy.Errors.{Error, proxy_max_retries, no_cancel, is_proxy_retry, is_proxy_closed_ok}
use ezproxy.Context.{cause_of, is_done, with_cancel, cancel}
use ezproxy.Handler.State.{listened, Spawner, emit}
use ezproxy.Handler.Send.{handle_error}

-- IProxyListener: what a run does under the context that it is given. It may add connections, and
-- is to cancel that context before it returns.
abbrev pub Listener : Type 0
Listener = ℕ → Spawner → Spawner

-- p.contextCancel(e)
unfoldable pub cancel_spawner : Error → Spawner → Spawner
cancel_spawner e p = record p { contexts = cancel p.contexts p.context e }

-- One run of the listener: the spawner after it, and the run's context.
unfoldable pub run_listener : Listener → Spawner → Spawner × ℕ
run_listener h p =
    let (contexts, ctx) = with_cancel p.contexts p.context in
    (h ctx (emit (listened ctx) (record p { contexts = contexts })), ctx)

-- What follows a run that ended with the cause; `again` is what a retry leads to.
unfoldable pub after_run : Option Error → Spawner → Spawner → Spawner
unfolding cancel_spawner
after_run none again p = cancel_spawner no_cancel p
after_run (some cause) again p =
    if is_proxy_retry cause
    then again
    else if is_proxy_closed_ok cause
    then p
    else cancel_spawner cause (handle_error cause none p)

-- The last retry is spent.
unfoldable pub give_up : Option Error → Spawner → Spawner
unfolding cancel_spawner
give_up none p = p
give_up (some cause) p = cancel_spawner cause (handle_error proxy_max_retries none p)

-- The loop, with `3 - retryCount` retries left.
unfoldable pub listen_loop : Listener → ℕ → Spawner → Spawner
unfolding run_listener after_run give_up
listen_loop h zero p =
    let (q, ctx) = run_listener h p in
    let cause = cause_of q.contexts ctx in after_run cause (give_up cause q) q
listen_loop h (suc left) p =
    let (q, ctx) = run_listener h p in
    let cause = cause_of q.contexts ctx in
    let again = listen_loop h left q in after_run cause again q

-- p.wg.Done(): none is the panic of a negative counter
unfoldable pub wg_done : Spawner → Option Spawner
wg_done p = if p.wg == 0 then none else some (record p { wg = p.wg - 1 })

unfoldable pub add_listener : Listener → Spawner → Option Spawner
unfolding listen_loop wg_done
add_listener h p =
    if is_done p.contexts p.context
    then some p
    else wg_done (listen_loop h 3 (record p { wg = p.wg + 1 }))
