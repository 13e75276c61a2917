-- ===== src/Handler/Life/Quiet.antt =====
-- The calls that leave the table of connections alone: handler/spawner.go.
use ezproxy.Base.{
  ℕ, ◌≡◌, refl, Option, some, arith, Bool-cases, Option-cases, Returns-eq, Returns->>=, inl, inr,
}
use ezproxy.Errors.{canceled, spawner_closed_ok}
use ezproxy.Context.{IsTree, Contexts, is_done}
use ezproxy.Handler.State.{Spawner}
use ezproxy.Handler.Invariant.{IsValid}
use ezproxy.Handler.Invariant.Frame.{
  Grows, Grows-refl, Grows-trans, cancel-Grows, with_cancel-Grows,
}
use ezproxy.Handler.Pruner.{dead_indices, remove_each, prune_channels}
use ezproxy.Handler.Listener.{cancel_spawner}
use ezproxy.Handler.Lifecycle.{
  free_filter, set_filter, try_set_filter_callback, close_channels, begin_close,
}
use ezproxy.Handler.Lifecycle.Closing.{Closing, close_channels-Closing, begin_close-open}
use ezproxy.Handler.Life.Ageing.{IsQuiet}

pub contexts-IsQuiet :
    (p : Spawner) (s : Contexts) → Grows p.contexts s → IsQuiet p (record p { contexts = s })
contexts-IsQuiet p s g = record { grown = g; stored = refl; table = refl; next = refl }

pub prune_channels-IsQuiet : (p q : Spawner) → prune_channels p ≡ some q → IsQuiet p q
unfolding prune_channels
prune_channels-IsQuiet p q e =
    elim (Option-cases (remove_each (dead_indices p.contexts 0 p.rc_chan) p.rc_chan)) [
      | inl out ↦ absurd (ground arith)
      | inr (zs, f) ↦
          let e' : record p { rc_chan = zs } ≡ q = ground arith in
          rw (← e')
            (record { grown = Grows-refl p.contexts; stored = refl; table = refl; next = refl })
    ]

set_filter-IsQuiet : (cb : Option ℕ) (c : ℕ) (p : Spawner) → IsQuiet p (set_filter cb c p)
unfolding set_filter
set_filter-IsQuiet cb c p = record {
  grown = with_cancel-Grows p.contexts c;
  stored = refl;
  table = refl;
  next = refl;
}

pub filter-IsQuiet :
    (cb : Option ℕ) (c : ℕ) (p : Spawner)
    → IsTree p.contexts
    → IsQuiet p (try_set_filter_callback cb c p).1
unfolding try_set_filter_callback
filter-IsQuiet cb c p t = elim (Option-cases p.callback_ctx) [
  | inl bare ↦
      let k = set_filter-IsQuiet cb c p in
      rw (bare, try_set_filter_callback)
        (record {
          grown = unfold set_filter in k.grown;
          stored = unfold set_filter in refl;
          table = unfold set_filter in refl;
          next = unfold set_filter in refl;
        })
  | inr (old, e) ↦ elim (Bool-cases (is_done p.contexts old)) [
    | inr lives ↦
        rw (e, try_set_filter_callback)
          (rw lives
            (record { grown = Grows-refl p.contexts; stored = refl; table = refl; next = refl }))
    | inl over ↦
        let k = set_filter-IsQuiet cb c (free_filter old p) in
        rw (e, try_set_filter_callback)
          (rw over (record {
            grown =
                Grows-trans _ _ _ (unfold free_filter in cancel-Grows p.contexts old canceled t)
                  k.grown;
            stored = unfold set_filter free_filter in refl;
            table = unfold set_filter free_filter in refl;
            next = unfold set_filter free_filter in refl;
          }))
  ]
]

pub begin_close-IsQuiet : (p q : Spawner) → IsValid p → begin_close p ≡ some q → IsQuiet p q
unfolding begin_close cancel_spawner
begin_close-IsQuiet p q v e =
    Returns-eq (IsQuiet p) (begin_close p) q
      (Returns->>= (Closing p.contexts) (IsQuiet p) (close_channels p.contexts p.rc_chan) _
        (close_channels-Closing p.contexts p.rc_chan v.tree v.channels (begin_close-open p q e))
        λ r m c. record {
          grown = Grows-trans _ _ _ c.grown (cancel-Grows r.0 p.context spawner_closed_ok c.tree);
          stored = refl;
          table = refl;
          next = refl;
        })
      e
