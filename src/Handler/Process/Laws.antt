-- ===== src/Handler/Process/Laws.antt =====
-- What holds of a running spawner, whatever the order of its steps.
use ezproxy.Base.{
  ℕ, ◌+◌, ◌-◌, ◌<◌, ◌≤◌, ◌≡◌, ap, some, length, arith, Bool-cases, Returns-eq, Option-cases, inl,
  inr,
}
use ezproxy.Errors.{close_timeout}
use ezproxy.Context.{is_done}
use ezproxy.Handler.State.{word, Proxy, Env, Spawner}
use ezproxy.Handler.Invariant.{IsValid}
use ezproxy.Handler.Invariant.Frame.{with_cancel-IsValid, cancel-IsValid, wg-IsValid}
use ezproxy.Handler.Container.{new_proxy_container}
use ezproxy.Handler.Container.Laws.{send_to-IsKept}
use ezproxy.Handler.Container.Packets.{handle_packet-IsKept}
use ezproxy.Handler.Connections.{add_connection}
use ezproxy.Handler.Connections.Laws.{
  add_connection_failed, add_connection_ok, length-add_connection_ok,
}
use ezproxy.Handler.Connections.Adding.{add_connection_dead}
use ezproxy.Handler.Listener.{wg_done}
use ezproxy.Handler.Pruner.{start_pruner}
use ezproxy.Handler.Pruner.Laws.{prune_connections-IsValid, prune_connections-waits}
use ezproxy.Handler.Pruner.Channels.{prune_channels-IsValid}
use ezproxy.Handler.Lifecycle.{end_close, set_error_callback, get_recv_chan}
use ezproxy.Handler.Lifecycle.Laws.{
  try_set_filter_callback-IsValid, try_set_filter_callback-keeps, get_recv_chan-IsValid,
}
use ezproxy.Handler.Lifecycle.Closing.{begin_close-IsClosing, begin_close-open}
use ezproxy.Handler.Process.{
  Process, Step, adds, receives, injects, cancels, derives, prunes_connections, prunes_channels,
  filters, watches, handles_errors, closes, starts_pruner, starts_listener, ends_listener, Reach,
  here, next,
}

-- The wait group counts every connection, every listener, and k more: 1 once the pruner has started.
pub record IsRunning (k : ℕ) (t : Process) : Type 0 where
  pub valid : IsValid t.spawner
  pub awaited : length t.spawner.connections + t.listeners + k ≤ t.spawner.wg

add_connection-awaited :
    (env : Env) (px : Proxy) (p : Spawner) (n : ℕ)
    → IsValid p
    → p.current_id + 1 < word
    → length p.connections + n ≤ p.wg
    → let q = (add_connection (new_proxy_container env) px p).1 in
      IsValid q × (length q.connections + n ≤ q.wg)
add_connection-awaited env px p n v l w = elim (Bool-cases (is_done p.contexts p.context)) [
  | inl dead ↦ rw (add_connection_dead env px p dead) (v, w)
  | inr live ↦ elim (Option-cases (env.init p.log px)) [
    | inl e ↦
        let (r, g, o, h, a, i, k, u) = add_connection_ok env px p v live e l in
        (u, omega (arith, k, length-add_connection_ok env px p v live e))
    | inr (x, e) ↦
        let (r, c, i, k, d, u) = add_connection_failed env px p x v live e in
        (u, omega (arith, ap length c, k))
  ]
]

-- A part of the state that keeps the count.
IsRunning-kept :
    (k : ℕ) (p q : Spawner) (n : ℕ)
    → IsRunning k (record { spawner = p; listeners = n })
    → IsValid q
    → q.connections ≡ p.connections
    → q.wg ≡ p.wg
    → IsRunning k (record { spawner = q; listeners = n })
IsRunning-kept k p q n r v c w = record {
  valid = v;
  awaited = omega (arith, r.awaited, ap length c, w);
}

pub wg_done-eq :
    (p q : Spawner) → wg_done p ≡ some q → (0 < p.wg) × (q ≡ record p { wg = p.wg - 1 })
unfolding wg_done
wg_done-eq p q e = (ground arith, ground arith)

-- Every step of a running spawner keeps it valid, and the wait group above its connections and
-- listeners.
pub Step-IsRunning : {k : ℕ} {t u : Process} → Step t u → IsRunning k t → IsRunning k u
Step-IsRunning {k} {t} (adds env px l e) r =
    let (v, w) =
      add_connection-awaited env px t.spawner (t.listeners + k) r.valid l
        (omega (arith, r.awaited)) in
    rw e (record { valid = v; awaited = omega arith })
Step-IsRunning {k} {t} (receives env d h p l m e) r =
    let kept = Returns-eq _ _ p (handle_packet-IsKept env d h t.spawner r.valid l) m in
    rw e (IsRunning-kept k t.spawner p t.listeners r kept.valid kept.table kept.waits)
Step-IsRunning {k} {t} (injects env sb bytes h p x l m e) r =
    let kept = Returns-eq _ _ (x, p) (send_to-IsKept sb env bytes h t.spawner r.valid l) m in
    rw e (IsRunning-kept k t.spawner p t.listeners r kept.valid kept.table kept.waits)
Step-IsRunning {k} {t} (cancels c x e) r =
    rw e (record { valid = cancel-IsValid t.spawner c x r.valid; awaited = r.awaited })
Step-IsRunning {k} {t} (derives c l e) r =
    rw e (record { valid = with_cancel-IsValid t.spawner c r.valid l; awaited = r.awaited })
Step-IsRunning {k} {t} (prunes_connections p m e) r =
    let v = Returns-eq _ _ p (prune_connections-IsValid t.spawner r.valid) m in
    let falls = prune_connections-waits t.spawner p r.valid m in
    rw e (record { valid = v; awaited = omega (arith, falls, r.awaited) })
Step-IsRunning {k} {t} (prunes_channels p m e) r =
    let (v, c, w) = prune_channels-IsValid t.spawner p r.valid m in
    rw e (IsRunning-kept k t.spawner p t.listeners r v c w)
Step-IsRunning {k} {t} (filters cb c l e) r = rw e (record {
  valid = try_set_filter_callback-IsValid cb c t.spawner r.valid l;
  awaited =
      let (same, w) = try_set_filter_callback-keeps cb c t.spawner in
      omega (arith, r.awaited, ap length same, w);
})
Step-IsRunning {k} {t} (watches c l e) r = rw e (record {
  valid = get_recv_chan-IsValid c t.spawner r.valid l;
  awaited = unfold get_recv_chan in r.awaited;
})
Step-IsRunning {k} {t} (handles_errors cb e) r = rw e (record {
  valid = unfold set_error_callback in assumption r.valid;
  awaited = unfold set_error_callback in r.awaited;
})
Step-IsRunning {k} {t} (closes p m e) r =
    let c =
      Returns-eq _ _ p (begin_close-IsClosing t.spawner r.valid (begin_close-open t.spawner p m))
        m in
    rw e (IsRunning-kept k t.spawner p t.listeners r c.valid c.table c.waits)
Step-IsRunning {k} {t} (starts_pruner e) r = rw e (record {
  valid = unfold start_pruner in wg-IsValid t.spawner _ r.valid (omega (arith, r.awaited));
  awaited = unfold start_pruner in omega (arith, r.awaited);
})
Step-IsRunning {k} {t} (starts_listener e) r = rw e (record {
  valid = wg-IsValid t.spawner _ r.valid (omega (arith, r.awaited));
  awaited = omega (arith, r.awaited);
})
Step-IsRunning {k} {t} (ends_listener n p l m e) r =
    let spent = wg_done-eq t.spawner p m in
    rw (e, spent.1)
      (record {
        valid = wg-IsValid t.spawner _ r.valid (omega (arith, r.awaited, spent.0));
        awaited = omega (arith, r.awaited, spent.0);
      })

-- Whatever steps a running spawner takes, in whatever order, it stays valid, and its wait group
-- counts at least its connections, its listeners and k more.
pub Reach-IsRunning : {k : ℕ} {t u : Process} → IsRunning k t → Reach t u → IsRunning k u
Reach-IsRunning r here = r
Reach-IsRunning r (next s st) = Step-IsRunning st (Reach-IsRunning r s)

-- Of a running spawner whose pruner has started, the wait of Close ends in the timeout error,
-- whatever steps are taken before and during it: nothing gives back the pruner's own count of the
-- wait group.
pub close-times_out :
    {t u : Process} → IsRunning 1 t → Reach t u → end_close u.spawner ≡ some close_timeout
unfolding end_close
close-times_out r s = ground (arith, (Reach-IsRunning r s).awaited)
