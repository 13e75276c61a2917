-- ===== src/Handler/Life/Growth.antt =====
-- Contexts are made and cancelled while a spawner runs, and nothing else happens to them.
use ezproxy.Base.{
  ℕ, ◌≡◌, sym, ◌∙◌, arith, none, some, Bool-cases, Option-cases, Returns-eq, inl, inr,
}
use ezproxy.Context.{is_done}
use ezproxy.Handler.State.{Proxy, Env, Spawner}
use ezproxy.Handler.Invariant.{IsValid}
use ezproxy.Handler.Invariant.Frame.{
  Grows, Grows-refl, Grows-trans, cancel-Grows, with_cancel-Grows,
}
use ezproxy.Handler.Container.{new_proxy_container}
use ezproxy.Handler.Container.Laws.{send_to-IsKept}
use ezproxy.Handler.Container.Packets.{handle_packet-IsKept}
use ezproxy.Handler.Connections.{add_connection, register}
use ezproxy.Handler.Connections.Adding.{
  failed, add_connection_dead, add_connection-failed, add_connection-made, handle_error-keeps,
}
use ezproxy.Handler.Pruner.Laws.{prune_connections_exact}
use ezproxy.Handler.Pruner.{prune_connections, start_pruner}
use ezproxy.Handler.Lifecycle.{get_recv_chan, set_error_callback}
use ezproxy.Handler.Life.Births.{made-Ages, failed-Ages}
use ezproxy.Handler.Life.Quiet.{prune_channels-IsQuiet, filter-IsQuiet, begin_close-IsQuiet}
use ezproxy.Handler.Process.{
  Process, Step, adds, receives, injects, cancels, derives, prunes_connections, prunes_channels,
  filters, watches, handles_errors, closes, starts_pruner, starts_listener, ends_listener, Reach,
  here, next,
}
use ezproxy.Handler.Process.Laws.{wg_done-eq, IsRunning, Reach-IsRunning}

add-Grows :
    (env : Env) (px : Proxy) (p : Spawner)
    → IsValid p
    → Grows p.contexts (add_connection (new_proxy_container env) px p).1.contexts
unfolding register
add-Grows env px p v = elim (Bool-cases (is_done p.contexts p.context)) [
  | inl e ↦ rw (add_connection_dead env px p e) (Grows-refl p.contexts)
  | inr live ↦ elim (Option-cases (env.init p.log px)) [
    | inr (x, e) ↦
        rw (add_connection-failed env px p x live e)
          (rw (handle_error-keeps x none (failed px x p)) (failed-Ages px x p v).grown)
    | inl e ↦ rw (add_connection-made env px p live e) (made-Ages p.current_id px p).grown
  ]
]

prune-Grows :
    (p q : Spawner) → IsValid p → prune_connections p ≡ some q → Grows p.contexts q.contexts
prune-Grows p q v e =
    let both = sym e ∙ prune_connections_exact p v in
    let same : q.contexts ≡ p.contexts = ground (arith, both) in rw same (Grows-refl p.contexts)

Step-Grows :
    {k : ℕ} {t u : Process} → IsRunning k t → Step t u → Grows t.spawner.contexts u.spawner.contexts
Step-Grows {k} {t} r (adds env px l e) = rw e (add-Grows env px t.spawner r.valid)
Step-Grows {k} {t} r (receives env d h p l m e) =
    rw e (Returns-eq _ _ p (handle_packet-IsKept env d h t.spawner r.valid l) m).ages.grown
Step-Grows {k} {t} r (injects env sb bytes h p x l m e) =
    rw e (Returns-eq _ _ (x, p) (send_to-IsKept sb env bytes h t.spawner r.valid l) m).ages.grown
Step-Grows {k} {t} r (cancels c x e) = rw e (cancel-Grows t.spawner.contexts c x r.valid.tree)
Step-Grows {k} {t} r (derives c l e) = rw e (with_cancel-Grows t.spawner.contexts c)
Step-Grows {k} {t} r (prunes_connections p m e) = rw e (prune-Grows t.spawner p r.valid m)
Step-Grows {k} {t} r (prunes_channels p m e) = rw e (prune_channels-IsQuiet t.spawner p m).grown
Step-Grows {k} {t} r (filters cb c l e) = rw e (filter-IsQuiet cb c t.spawner r.valid.tree).grown
Step-Grows {k} {t} r (watches c l e) =
    rw e (unfold get_recv_chan in with_cancel-Grows t.spawner.contexts c)
Step-Grows {k} {t} r (handles_errors cb e) =
    rw e (unfold set_error_callback in Grows-refl t.spawner.contexts)
Step-Grows {k} {t} r (closes p m e) = rw e (begin_close-IsQuiet t.spawner p r.valid m).grown
Step-Grows {k} {t} r (starts_pruner e) = rw e (unfold start_pruner in Grows-refl t.spawner.contexts)
Step-Grows {k} {t} r (starts_listener e) = rw e (Grows-refl t.spawner.contexts)
Step-Grows {k} {t} r (ends_listener n p l m e) =
    rw (e, (wg_done-eq t.spawner p m).1) (Grows-refl t.spawner.contexts)

-- No context of a running spawner is forgotten, or comes back to life.
pub Reach-Grows :
    {k : ℕ} {t u : Process}
    → IsRunning k t
    → Reach t u
    → Grows t.spawner.contexts u.spawner.contexts
Reach-Grows {k} {t} r here = Grows-refl t.spawner.contexts
Reach-Grows r (next s x) = Grows-trans _ _ _ (Reach-Grows r s) (Step-Grows (Reach-IsRunning r s) x)
