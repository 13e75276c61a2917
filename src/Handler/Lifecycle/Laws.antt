-- ===== src/Handler/Lifecycle/Laws.antt =====
-- Filters, receivers and the end of a ProxySpawner, handler/spawner.go.
use ezproxy.Base.{
  ℕ, ◌<◌, ◌≡◌, refl, ap, Bool, true, false, Option, none, some, length, All-append, arith,
  Bool-cases, Option-cases, inl, inr,
}
use ezproxy.Errors.{Error, canceled, callback_exists}
use ezproxy.Context.{Contexts, cause_of, is_done, with_cancel}
use ezproxy.Context.Laws.{length-cancel, cancel_done}
use ezproxy.Handler.State.{Spawner}
use ezproxy.Handler.Invariant.{IsValid}
use ezproxy.Handler.Invariant.Frame.{with_cancel-IsValid, cancel-IsValid}
use ezproxy.Handler.Lifecycle.{free_filter, set_filter, try_set_filter_callback, get_recv_chan}

free_filter-IsValid : (ctx : ℕ) (p : Spawner) → IsValid p → IsValid (free_filter ctx p)
unfolding free_filter
free_filter-IsValid ctx p v =
    let w = cancel-IsValid p ctx canceled v in
    record {
      tree = w.tree;
      rooted = w.rooted;
      fresh = w.fresh;
      located = w.located;
      distinct = w.distinct;
      linked = λ e. absurd (cc e);
      filter_made = tt;
      housed = w.housed;
      channels = w.channels;
      counted = w.counted;
    }

set_filter-IsValid :
    (cb : Option ℕ) (ctx : ℕ) (p : Spawner)
    → IsValid p
    → ctx < length p.contexts
    → IsValid (set_filter cb ctx p)
unfolding set_filter
set_filter-IsValid cb ctx p v l =
    let w = with_cancel-IsValid p ctx v l in
    record {
      tree = w.tree;
      rooted = w.rooted;
      fresh = w.fresh;
      located = w.located;
      distinct = w.distinct;
      linked = λ e. refl;
      filter_made = unfold with_cancel in omega arith;
      housed = w.housed;
      channels = w.channels;
      counted = w.counted;
    }

length-free_filter :
    (ctx : ℕ) (p : Spawner) → length (free_filter ctx p).contexts ≡ length p.contexts
unfolding free_filter
length-free_filter ctx p = length-cancel p.contexts ctx canceled

-- Setting a filter keeps the spawner valid on every branch.
pub try_set_filter_callback-IsValid :
    (cb : Option ℕ) (ctx : ℕ) (p : Spawner)
    → IsValid p
    → ctx < length p.contexts
    → IsValid (try_set_filter_callback cb ctx p).1
unfolding try_set_filter_callback
try_set_filter_callback-IsValid cb ctx p v l = elim (Option-cases p.callback_ctx) [
  | inl bare ↦ rw (bare, try_set_filter_callback) (set_filter-IsValid cb ctx p v l)
  | inr (old, e) ↦ elim (Bool-cases (is_done p.contexts old)) [
    | inr live ↦ rw (e, try_set_filter_callback) (rw live v)
    | inl dead ↦
        rw (e, try_set_filter_callback)
          (rw dead (
            set_filter-IsValid cb ctx (free_filter old p) (free_filter-IsValid old p v)
              (omega (arith, length-free_filter old p))))
  ]
]

-- While a filter's context is alive a second filter is refused, and nothing changes.
pub try_set_filter_callback_refused :
    (cb : Option ℕ) (ctx old : ℕ) (p : Spawner)
    → p.callback_ctx ≡ some old
    → is_done p.contexts old ≡ false
    → try_set_filter_callback cb ctx p ≡ (some callback_exists, p)
unfolding try_set_filter_callback
try_set_filter_callback_refused cb ctx old p e live = ground arith

abbrev pub is_free : Contexts → Option ℕ → Bool
is_free s none = true
is_free s (some old) = is_done s old

abbrev Installs : Option Error × Spawner → ℕ → ℕ → Spawner → Type 0
Installs (r, q) cb ctx p =
    (r ≡ none)
    × (q.send_callback ≡ some cb)
    × (q.callback_ctx ≡ some (length p.contexts))
    × (cause_of q.contexts (length p.contexts) ≡ cause_of p.contexts ctx)

set_filter-Installs :
    (cb ctx : ℕ) (p : Spawner) → Installs (none, set_filter (some cb) ctx p) cb ctx p
unfolding set_filter with_cancel cause_of
set_filter-Installs cb ctx p = (refl, refl, refl, ground arith)

free_filter_done :
    (old : ℕ) (p : Spawner)
    → IsValid p
    → is_done p.contexts old ≡ true
    → free_filter old p ≡ record p { callback_ctx = none; send_callback = none }
unfolding free_filter
free_filter_done old p v d =
    ap (λ s. record p { contexts = s; callback_ctx = none; send_callback = none })
      (cancel_done p.contexts old canceled v.tree d)

try_set_filter_callback-taken :
    (cb ctx old : ℕ) (p : Spawner)
    → p.callback_ctx ≡ some old
    → is_done p.contexts old ≡ true
    → try_set_filter_callback (some cb) ctx p ≡ (none, set_filter (some cb) ctx (free_filter old p))
unfolding try_set_filter_callback
try_set_filter_callback-taken cb ctx old p e d = ground arith

try_set_filter_callback-bare :
    (cb ctx : ℕ) (p : Spawner)
    → p.callback_ctx ≡ none
    → try_set_filter_callback (some cb) ctx p ≡ (none, set_filter (some cb) ctx p)
unfolding try_set_filter_callback
try_set_filter_callback-bare cb ctx p e = ground arith

-- In a valid spawner without a filter, or with one whose context is dead, the new filter is installed under a context
-- of its own, which is dead at once exactly if the given one is, and for the same reason.
pub try_set_filter_callback_ok :
    (cb ctx : ℕ) (p : Spawner)
    → IsValid p
    → is_free p.contexts p.callback_ctx ≡ true
    → let (r, q) = try_set_filter_callback (some cb) ctx p in
      (r ≡ none)
      × (q.send_callback ≡ some cb)
      × (q.callback_ctx ≡ some (length p.contexts))
      × (cause_of q.contexts (length p.contexts) ≡ cause_of p.contexts ctx)
try_set_filter_callback_ok cb ctx p v f = elim (Option-cases p.callback_ctx) [
  | inl bare ↦ rw (try_set_filter_callback-bare cb ctx p bare) (set_filter-Installs cb ctx p)
  | inr (old, e) ↦
      let dead : is_done p.contexts old ≡ true = ground arith in
      rw (try_set_filter_callback-taken cb ctx old p e dead, free_filter_done old p v dead)
        (set_filter-Installs cb ctx (record p { callback_ctx = none; send_callback = none }))
]

pub get_recv_chan-IsValid :
    (ctx : ℕ) (p : Spawner) → IsValid p → ctx < length p.contexts → IsValid (get_recv_chan ctx p).1
unfolding get_recv_chan
get_recv_chan-IsValid ctx p v l =
    let w = with_cancel-IsValid p ctx v l in
    record {
      tree = w.tree;
      rooted = w.rooted;
      fresh = w.fresh;
      located = w.located;
      distinct = w.distinct;
      linked = w.linked;
      filter_made = w.filter_made;
      housed = w.housed;
      channels =
          All-append _ p.rc_chan _ w.channels
            ((unfold with_cancel in omega arith, λ e. absurd (cc e)), tt);
      counted = w.counted;
    }

pub try_set_filter_callback-keeps :
    (cb : Option ℕ) (ctx : ℕ) (p : Spawner)
    → let q = (try_set_filter_callback cb ctx p).1 in
      (q.connections ≡ p.connections) × (q.wg ≡ p.wg)
unfolding try_set_filter_callback set_filter free_filter
try_set_filter_callback-keeps cb ctx p = ground arith
