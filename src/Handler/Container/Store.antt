-- ===== src/Handler/Container/Store.antt =====
-- The store of the containers, handler/proxy.go: a container is overwritten by one with the same id and
-- context, when its statistics change.
use ezproxy.Base.{
  ℕ, zero, suc, ◌<◌, ◌≡◌, refl, ◌∙◌, Option, some, List, [], ◌∷◌, length, All, arith, Option-cases,
  inl, inr, get_elem?, set,
}
use ezproxy.Errors.{Error}
use ezproxy.Handler.State.{Bytes, Container, Env, Spawner}
use ezproxy.Handler.Invariant.{IsValid, id_at}
use ezproxy.Handler.Send.{handle_error}
use ezproxy.Handler.Container.{count_sent}

-- A container that is overwritten by one with the same id and context.
module _ (s : ℕ) where
  All-set-housed :
      (cs : List Container) (h : ℕ) (c : Container)
      → c.ctx < s
      → All (λ d. d.ctx < s) cs
      → All (λ d. d.ctx < s) (set cs h c)
  All-set-housed [] h c l a = tt
  All-set-housed (d ∷ cs) zero c l a = (l, a.1)
  All-set-housed (d ∷ cs) (suc h) c l a = (a.0, All-set-housed cs h c l a.1)

id_at-set :
    (cs : List Container) (h k : ℕ) (c d : Container)
    → get_elem? cs h ≡ some c
    → d.id ≡ c.id
    → id_at (set cs h d) k ≡ id_at cs k
id_at-set [] h k c d e i = refl
id_at-set (x ∷ cs) zero zero c d e i = ground arith
id_at-set (x ∷ cs) zero (suc k) c d e i = refl
id_at-set (x ∷ cs) (suc h) zero c d e i = refl
id_at-set (x ∷ cs) (suc h) (suc k) c d e i = id_at-set cs h k c d e i

located-set :
    (cs : List Container) (h : ℕ) (c d : Container) (m : List (ℕ × ℕ))
    → get_elem? cs h ≡ some c
    → d.id ≡ c.id
    → All (λ e. id_at cs e.1 ≡ some e.0) m
    → All (λ e. id_at (set cs h d) e.1 ≡ some e.0) m
located-set cs h c d [] e i a = tt
located-set cs h c d ((k, g) ∷ m) e i a =
    (id_at-set cs h g c d e i ∙ a.0, located-set cs h c d m e i a.1)

pub housed_at :
    (s : ℕ) (cs : List Container) (h : ℕ) (c : Container)
    → get_elem? cs h ≡ some c
    → All (λ d. d.ctx < s) cs
    → c.ctx < s
housed_at s [] h c e a = cc
housed_at s (d ∷ cs) zero c e a = ground (arith, a.0)
housed_at s (d ∷ cs) (suc h) c e a = housed_at s cs h c e a.1

pub count_sent-IsValid :
    (env : Env) (h : ℕ) (bytes : Bytes) (c : Container) (p : Spawner)
    → IsValid p
    → get_elem? p.containers h ≡ some c
    → IsValid (count_sent env h bytes c p)
unfolding count_sent
count_sent-IsValid env h bytes c p v e = record {
  tree = v.tree;
  rooted = v.rooted;
  fresh = v.fresh;
  located = located-set p.containers h c _ p.connections e refl v.located;
  distinct = v.distinct;
  linked = v.linked;
  filter_made = v.filter_made;
  housed =
      All-set-housed (length p.contexts) p.containers h _ (housed_at _ p.containers h c e v.housed)
        v.housed;
  channels = v.channels;
  counted = v.counted;
}

pub handle_error-IsValid :
    (x : Error) (pc : Option ℕ) (p : Spawner) → IsValid p → IsValid (handle_error x pc p)
unfolding handle_error
handle_error-IsValid x pc p v = elim (Option-cases p.error_callback) [
  | inl e ↦ rw (e, handle_error) v
  | inr (cb, e) ↦ rw (e, handle_error) (assumption v)
]
