-- ===== src/Handler/Lifecycle/Closing.antt =====
-- Close, handler/spawner.go.
use ezproxy.Base.{
  ◌<◌, ◌≡◌, refl, ap, true, false, none, some, List, [], ◌∷◌, length, All, All-map, arith,
  Bool-cases, Returns, Returns-map, Returns->>=, Option-cases, inl, inr,
}
use ezproxy.Errors.{canceled, spawner_closed_ok}
use ezproxy.Context.{Contexts, is_done, cancel, IsTree}
use ezproxy.Context.Laws.{is_done-cancel_self, cancel-IsTree}
use ezproxy.Handler.State.{RecvChan, Spawner}
use ezproxy.Handler.Invariant.{IsValid, IsChannel}
use ezproxy.Handler.Invariant.Frame.{
  Grows, Grows-trans, Grows-refl, IsChannel-Grows, cancel-Grows, contexts-IsValid, cancel-IsValid,
}
use ezproxy.Handler.Listener.{cancel_spawner}
use ezproxy.Handler.Lifecycle.{close_channels, begin_close}

abbrev IsOpen : RecvChan → Type 0
IsOpen v = v.closed ≡ false

abbrev pub IsClosed : Contexts → RecvChan → Type 0
IsClosed s v = IsChannel s v × (v.closed ≡ true)

-- What the loop of Close leaves.
pub record Closing (s : Contexts) (r : Contexts × List RecvChan) : Type 0 where
  pub grown : Grows s r.0
  pub tree : IsTree r.0
  pub all_closed : All (IsClosed r.0) r.1

length-close_channels :
    (s : Contexts) (vs : List RecvChan) {r : Contexts × List RecvChan}
    → close_channels s vs ≡ some r
    → (length r.1 ≡ length vs) × All IsOpen vs
unfolding close_channels
length-close_channels s [] e = (ground arith, tt)
length-close_channels s (v ∷ vs) {r} e = elim (Bool-cases v.closed) [
  | inl shut ↦ absurd (ground arith)
  | inr open_ ↦ elim (Option-cases (close_channels (cancel s v.ctx canceled) vs)) [
    | inl out ↦ absurd (ground arith)
    | inr (r', f) ↦
        let (l, o) = length-close_channels (cancel s v.ctx canceled) vs f in
        (ground arith, (open_, o))
  ]
]

pub close_channels-Closing :
    (s : Contexts) (vs : List RecvChan)
    → IsTree s
    → All (IsChannel s) vs
    → All IsOpen vs
    → Returns (close_channels s vs) (Closing s)
unfolding close_channels
close_channels-Closing s [] t a o = record { grown = Grows-refl s; tree = t; all_closed = tt }
close_channels-Closing s (v ∷ vs) t a o =
    let s' = cancel s v.ctx canceled in
    let g = cancel-Grows s v.ctx canceled t in
    rw o.0 (
      Returns->>= (Closing s') (Closing s) (close_channels s' vs) _
        (close_channels-Closing s' vs (cancel-IsTree s v.ctx canceled t)
          (All-map _ _ vs (IsChannel-Grows s s' g) a.1) o.1)
        λ r _ c. record {
          grown = Grows-trans s s' r.0 g c.grown;
          tree = c.tree;
          all_closed = (
            (
              (
                omega (arith, a.0.0, g.longer, c.grown.longer),
                λ _. c.grown.stays v.ctx (is_done-cancel_self s v.ctx canceled t a.0.0),
              ),
              refl,
            ),
            c.all_closed,
          );
        })

-- What Close leaves before it waits: a valid and cancelled spawner, whose receivers are all closed.
pub record IsClosing (p q : Spawner) : Type 0 where
  pub valid : IsValid q
  pub dead : is_done q.contexts q.context ≡ true
  pub shut : All (λ v. v.closed ≡ true) q.rc_chan
  pub as_many : length q.rc_chan ≡ length p.rc_chan
  pub table : q.connections ≡ p.connections
  pub waits : q.wg ≡ p.wg

All-closed :
    (s : Contexts) (vs : List RecvChan) → All (IsClosed s) vs → All (λ v. v.closed ≡ true) vs
All-closed s vs = All-map _ _ vs (λ v c. c.1)

-- Close of a valid spawner gets as far as its wait when no receiver was closed before: the spawner is
-- then valid and cancelled, every receiver is closed and none is lost, and the connections and the
-- wait group are as they were.
pub begin_close-IsClosing :
    (p : Spawner)
    → IsValid p
    → All (λ v. v.closed ≡ false) p.rc_chan
    → Returns (begin_close p) (IsClosing p)
unfolding begin_close cancel_spawner
begin_close-IsClosing p v o =
    Returns->>= (Closing p.contexts) (IsClosing p) (close_channels p.contexts p.rc_chan) _
      (close_channels-Closing p.contexts p.rc_chan v.tree v.channels o)
      λ r m c.
        let u : Spawner = record p { contexts = r.0 } in
        let w = contexts-IsValid p r.0 v c.tree c.grown in
        let w' : IsValid (record u { rc_chan = r.1 }) = record {
          tree = w.tree;
          rooted = w.rooted;
          fresh = w.fresh;
          located = w.located;
          distinct = w.distinct;
          linked = w.linked;
          filter_made = w.filter_made;
          housed = w.housed;
          channels = All-map _ _ r.1 (λ x k. k.0) c.all_closed;
          counted = w.counted;
        } in
        record {
          valid = cancel-IsValid (record u { rc_chan = r.1 }) p.context spawner_closed_ok w';
          dead = is_done-cancel_self r.0 p.context spawner_closed_ok c.tree w.rooted;
          shut = All-closed r.0 r.1 c.all_closed;
          as_many = (length-close_channels p.contexts p.rc_chan m).0;
          table = refl;
          waits = refl;
        }

close_channels-again :
    (s : Contexts) (v : RecvChan) (vs : List RecvChan)
    → v.closed ≡ true
    → close_channels s (v ∷ vs) ≡ none
unfolding close_channels
close_channels-again s v vs e = ground arith

-- A Close of a spawner with a closed receiver first in its list panics: so does every second Close
-- with receivers that the pruner has not taken out in between.
pub begin_close_again :
    (p : Spawner) (v : RecvChan) (vs : List RecvChan)
    → p.rc_chan ≡ v ∷ vs
    → v.closed ≡ true
    → begin_close p ≡ none
unfolding begin_close
begin_close_again p v vs e c = rw (e, close_channels-again p.contexts v vs c) refl

-- Of a valid spawner with at least one receiver, none of them closed, the first Close gets as far as
-- its wait, and a second Close that follows at once panics.
pub begin_close_twice :
    (p : Spawner)
    → IsValid p
    → All (λ v. v.closed ≡ false) p.rc_chan
    → (v : RecvChan) (vs : List RecvChan) → p.rc_chan ≡ v ∷ vs
    → Returns (begin_close p) (λ q. begin_close q ≡ none)
begin_close_twice p v o u us e =
    Returns-map (IsClosing p) _ _ (begin_close-IsClosing p v o)
      λ q _ c. again q q.rc_chan refl c.shut (omega (arith, c.as_many, ap length e))
  where
    again :
        (q : Spawner) (ws : List RecvChan)
        → q.rc_chan ≡ ws
        → All (λ w. w.closed ≡ true) ws
        → 0 < length ws
        → begin_close q ≡ none
    again q [] f a l = absurd (omega arith)
    again q (w ∷ ws) f a l = begin_close_again q w ws f a.0

pub begin_close-open :
    (p q : Spawner) → begin_close p ≡ some q → All (λ v. v.closed ≡ false) p.rc_chan
unfolding begin_close
begin_close-open p q e = elim (Option-cases (close_channels p.contexts p.rc_chan)) [
  | inl out ↦ absurd (ground arith)
  | inr (r, f) ↦ (length-close_channels p.contexts p.rc_chan f).1
]
