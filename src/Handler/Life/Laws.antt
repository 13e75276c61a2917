-- ===== src/Handler/Life/Laws.antt =====
-- Every run of a spawner is, for each id, a run of the life of one connection.
use ezproxy.Base.{ℕ, refl, Returns-eq}
use ezproxy.Handler.Container.Laws.{send_to-IsKept}
use ezproxy.Handler.Container.Packets.{handle_packet-IsKept}
use ezproxy.Handler.Invariant.Frame.{Grows-refl, cancel-Grows, with_cancel-Grows}
use ezproxy.Handler.Lifecycle.{get_recv_chan, set_error_callback}
use ezproxy.Handler.Life.{stage, Move, Run, begin, then_}
use ezproxy.Handler.Pruner.{start_pruner}
use ezproxy.Handler.Process.{
  Process, Step, adds, receives, injects, cancels, derives, prunes_connections, prunes_channels,
  filters, watches, handles_errors, closes, starts_pruner, starts_listener, ends_listener, Reach,
  here, next,
}
use ezproxy.Handler.Process.Laws.{wg_done-eq, IsRunning, Reach-IsRunning}
use ezproxy.Handler.Life.Moves.{Ages-Move, IsQuiet-Move, prune-Move}
use ezproxy.Handler.Life.Quiet.{
  contexts-IsQuiet, prune_channels-IsQuiet, filter-IsQuiet, begin_close-IsQuiet,
}
use ezproxy.Handler.Life.Births.{add-Move}

-- One step of a running spawner is at most one move in the life of each connection.
pub Step-Move :
    {k : ℕ} {t u : Process} (id : ℕ)
    → IsRunning k t
    → Step t u
    → Move (stage id t.spawner) (stage id u.spawner)
Step-Move id r (adds env px l e) = rw e (add-Move id env px _ r.valid l)
Step-Move {k} {t} id r (receives env d h p l m e) =
    let kept = Returns-eq _ _ p (handle_packet-IsKept env d h t.spawner r.valid l) m in
    rw e (Ages-Move id t.spawner p r.valid kept.ages kept.table kept.next)
Step-Move {k} {t} id r (injects env sb bytes h p x l m e) =
    let kept = Returns-eq _ _ (x, p) (send_to-IsKept sb env bytes h t.spawner r.valid l) m in
    rw e (Ages-Move id t.spawner p r.valid kept.ages kept.table kept.next)
Step-Move {k} {t} id r (cancels c x e) = rw e (
    IsQuiet-Move id t.spawner _ r.valid
      (contexts-IsQuiet t.spawner _ (cancel-Grows t.spawner.contexts c x r.valid.tree)))
Step-Move {k} {t} id r (derives c l e) = rw e (
    IsQuiet-Move id t.spawner _ r.valid
      (contexts-IsQuiet t.spawner _ (with_cancel-Grows t.spawner.contexts c)))
Step-Move {k} {t} id r (prunes_connections p m e) = rw e (prune-Move id t.spawner p r.valid m)
Step-Move {k} {t} id r (prunes_channels p m e) =
    rw e (IsQuiet-Move id t.spawner p r.valid (prune_channels-IsQuiet t.spawner p m))
Step-Move {k} {t} id r (filters cb c l e) =
    rw e (IsQuiet-Move id t.spawner _ r.valid (filter-IsQuiet cb c t.spawner r.valid.tree))
Step-Move {k} {t} id r (watches c l e) = rw e (
    IsQuiet-Move id t.spawner _ r.valid (
      unfold get_recv_chan in
      record {
        grown = with_cancel-Grows t.spawner.contexts c;
        stored = refl;
        table = refl;
        next = refl;
      }))
Step-Move {k} {t} id r (handles_errors cb e) = rw e (
    IsQuiet-Move id t.spawner _ r.valid (
      unfold set_error_callback in
      record { grown = Grows-refl t.spawner.contexts; stored = refl; table = refl; next = refl }))
Step-Move {k} {t} id r (closes p m e) =
    rw e (IsQuiet-Move id t.spawner p r.valid (begin_close-IsQuiet t.spawner p r.valid m))
Step-Move {k} {t} id r (starts_pruner e) = rw e (
    IsQuiet-Move id t.spawner _ r.valid (
      unfold start_pruner in
      record { grown = Grows-refl t.spawner.contexts; stored = refl; table = refl; next = refl }))
Step-Move {k} {t} id r (starts_listener e) = rw e (
    IsQuiet-Move id t.spawner _ r.valid
      (record { grown = Grows-refl t.spawner.contexts; stored = refl; table = refl; next = refl }))
Step-Move {k} {t} id r (ends_listener n p l m e) =
    rw (e, (wg_done-eq t.spawner p m).1)
      (IsQuiet-Move id t.spawner _ r.valid (record {
        grown = Grows-refl t.spawner.contexts;
        stored = refl;
        table = refl;
        next = refl;
      }))

-- For every id, a run of a spawner that was running is a run of the life of one connection: it is
-- born at most once, alive then, dies and is taken off, in this order, and no id is used again.
pub Reach-Run :
    {k : ℕ} {t u : Process} (id : ℕ)
    → IsRunning k t
    → Reach t u
    → Run (stage id t.spawner) (stage id u.spawner)
Reach-Run id r here = begin
Reach-Run id r (next s st) = then_ (Reach-Run id r s) (Step-Move id (Reach-IsRunning r s) st)
