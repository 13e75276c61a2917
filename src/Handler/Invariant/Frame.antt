-- ===== src/Handler/Invariant/Frame.antt =====
-- Changes of the contexts, and of the log, keep the invariant.
use ezproxy.Base.{
  zero, suc, ◌==◌, Bool-cases, inl, inr, ℕ, ◌<◌, ◌≤◌, ◌≡◌, true, Option, none, some, List, [], ◌∷◌,
  length, All, All-map, arith,
}
use ezproxy.Base.Maps.{lookup}
use ezproxy.Errors.{Error}
use ezproxy.Context.{Contexts, cancel, is_done, with_cancel, cause_of, IsTree}
use ezproxy.Context.Laws.{
  length-cancel, cancel-IsTree, with_cancel-IsTree, is_done-cancel_mono, is_done-lt,
}
use ezproxy.Handler.State.{Container, RecvChan, Effect, Spawner}
use ezproxy.Handler.Invariant.{id_at, IsValid, IsChannel, IsMade}

-- More contexts, of which no cancelled one comes back to life.
pub record Grows (s s' : Contexts) : Type 0 where
  pub longer : length s ≤ length s'
  pub stays : (c : ℕ) → is_done s c ≡ true → is_done s' c ≡ true

module _ (s s' : Contexts) (g : Grows s s') where
  pub IsChannel-Grows : (v : RecvChan) → IsChannel s v → IsChannel s' v
  IsChannel-Grows v h = (omega (arith, g.longer, h.0), λ e. g.stays v.ctx (h.1 e))

  IsMade-Grows : (o : Option ℕ) → IsMade s o → IsMade s' o
  IsMade-Grows none h = tt
  IsMade-Grows (some c) h = omega (arith, g.longer)

  housed-Grows :
      (cs : List Container) → All (λ c. c.ctx < length s) cs → All (λ c. c.ctx < length s') cs
  housed-Grows [] h = tt
  housed-Grows (c ∷ cs) h = (omega (arith, g.longer, h.0), housed-Grows cs h.1)

pub contexts-IsValid :
    (p : Spawner) (s : Contexts)
    → IsValid p
    → IsTree s
    → Grows p.contexts s
    → IsValid (record p { contexts = s })
contexts-IsValid p s v t g = record {
  tree = t;
  rooted = omega (arith, v.rooted, g.longer);
  fresh = v.fresh;
  located = v.located;
  distinct = v.distinct;
  linked = v.linked;
  filter_made = IsMade-Grows p.contexts s g p.callback_ctx v.filter_made;
  housed = housed-Grows p.contexts s g p.containers v.housed;
  channels = All-map _ _ p.rc_chan (IsChannel-Grows p.contexts s g) v.channels;
  counted = v.counted;
}

pub cancel-Grows : (s : Contexts) (c : ℕ) (e : Error) → IsTree s → Grows s (cancel s c e)
cancel-Grows s c e t = record {
  longer = omega (arith, length-cancel s c e);
  stays = λ d. is_done-cancel_mono s c d e t;
}

pub with_cancel-Grows : (s : Contexts) (c : ℕ) → Grows s (with_cancel s c).0
unfolding with_cancel is_done cause_of
with_cancel-Grows s c = record {
  longer = omega arith;
  stays = λ d h. ground (arith, is_done-lt s d h);
}

pub Grows-refl : (s : Contexts) → Grows s s
Grows-refl s = record { longer = omega arith; stays = λ c e. e }

pub Grows-trans : (s t u : Contexts) → Grows s t → Grows t u → Grows s u
Grows-trans s t u g h = record {
  longer = omega (arith, g.longer, h.longer);
  stays = λ c e. h.stays c (g.stays c e);
}

-- Any context may be cancelled at any time.
pub cancel-IsValid :
    (p : Spawner) (c : ℕ) (e : Error)
    → IsValid p
    → IsValid (record p { contexts = cancel p.contexts c e })
cancel-IsValid p c e v =
    contexts-IsValid p (cancel p.contexts c e) v (cancel-IsTree p.contexts c e v.tree)
      (cancel-Grows p.contexts c e v.tree)

-- So may one be made, under any that exists.
pub with_cancel-IsValid :
    (p : Spawner) (c : ℕ)
    → IsValid p
    → c < length p.contexts
    → IsValid (record p { contexts = (with_cancel p.contexts c).0 })
with_cancel-IsValid p c v h =
    contexts-IsValid p (with_cancel p.contexts c).0 v (with_cancel-IsTree p.contexts c v.tree h)
      (with_cancel-Grows p.contexts c)

-- The log is free.
pub log-IsValid : (p : Spawner) (l : List Effect) → IsValid p → IsValid (record p { log = l })
log-IsValid p l v = record {
  tree = v.tree;
  rooted = v.rooted;
  fresh = v.fresh;
  located = v.located;
  distinct = v.distinct;
  linked = v.linked;
  filter_made = v.filter_made;
  housed = v.housed;
  channels = v.channels;
  counted = v.counted;
}

-- So is the wait group, above the number of connections.
pub wg-IsValid :
    (p : Spawner) (n : ℕ) → IsValid p → length p.connections ≤ n → IsValid (record p { wg = n })
wg-IsValid p n v l = record {
  tree = v.tree;
  rooted = v.rooted;
  fresh = v.fresh;
  located = v.located;
  distinct = v.distinct;
  linked = v.linked;
  filter_made = v.filter_made;
  housed = v.housed;
  channels = v.channels;
  counted = l;
}

-- The table leads to places that exist.
pub id_at-stored : (cs : List Container) (h k : ℕ) → id_at cs h ≡ some k → h < length cs
id_at-stored [] h k e = ground arith
id_at-stored (c ∷ cs) zero k e = omega arith
id_at-stored (c ∷ cs) (suc h) k e = omega (arith, id_at-stored cs h k e)

pub lookup-stored :
    (id h : ℕ) (p : Spawner) (m : List (ℕ × ℕ))
    → All (λ e. id_at p.containers e.1 ≡ some e.0) m
    → lookup id m ≡ some h
    → h < length p.containers
unfolding lookup
lookup-stored id h p [] a e = absurd (ground arith)
lookup-stored id h p ((k, g) ∷ m) a e = elim (Bool-cases (k == id)) [
  | inl same ↦ ground (arith, id_at-stored p.containers g k a.0)
  | inr other ↦ lookup-stored id h p m a.1 (ground arith)
]
