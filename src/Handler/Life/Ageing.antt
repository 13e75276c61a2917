-- ===== src/Handler/Life/Ageing.antt =====
-- What a call does to the connections that are there: their contexts can die, and nothing else
-- happens to them. handler/spawner.go and handler/proxy.go.
use ezproxy.Base.{
  ℕ, zero, suc, ◌<◌, ◌≡◌, refl, ap, ◌∙◌, true, Option, none, some, List, [], ◌∷◌, ◌++◌, length,
  get_elem?, set, arith, Option-cases, inl, inr,
}
use ezproxy.Handler.State.{Bytes, Env, Container, Spawner}
use ezproxy.Handler.Container.{is_alive, count_sent}
use ezproxy.Handler.Invariant.Frame.{Grows, Grows-refl, Grows-trans}

abbrev pub ctx_at : List Container → ℕ → Option ℕ
ctx_at cs h = elim (get_elem? cs h) [ none ↦ none | some c ↦ some c.ctx ]

-- No context comes back to life, and no container changes its context.
pub record Ages (p q : Spawner) : Type 0 where
  pub grown : Grows p.contexts q.contexts
  pub same : (h : ℕ) → h < length p.containers → ctx_at q.containers h ≡ ctx_at p.containers h

-- The table, the next id and the containers stay, and so do the dead contexts.
pub record IsQuiet (p q : Spawner) : Type 0 where
  pub grown : Grows p.contexts q.contexts
  pub stored : q.containers ≡ p.containers
  pub table : q.connections ≡ p.connections
  pub next : q.current_id ≡ p.current_id

pub Ages-refl :
    (p q : Spawner) → Grows p.contexts q.contexts → q.containers ≡ p.containers → Ages p q
Ages-refl p q g e = record { grown = g; same = λ h l. ap (λ cs. ctx_at cs h) e }

pub Ages-trans :
    (p q r : Spawner) → Ages p q → Ages q r → length p.containers ≡ length q.containers → Ages p r
Ages-trans p q r a b l = record {
  grown = Grows-trans p.contexts q.contexts r.contexts a.grown b.grown;
  same = λ h m. b.same h (omega (arith, l)) ∙ a.same h m;
}

ctx_at-set :
    (cs : List Container) (h k : ℕ) (c d : Container)
    → get_elem? cs h ≡ some c
    → d.ctx ≡ c.ctx
    → ctx_at (set cs h d) k ≡ ctx_at cs k
ctx_at-set [] h k c d e i = refl
ctx_at-set (x ∷ cs) zero zero c d e i = ground arith
ctx_at-set (x ∷ cs) zero (suc k) c d e i = refl
ctx_at-set (x ∷ cs) (suc h) zero c d e i = refl
ctx_at-set (x ∷ cs) (suc h) (suc k) c d e i = ctx_at-set cs h k c d e i

pub count_sent-Ages :
    (env : Env) (h : ℕ) (bytes : Bytes) (c : Container) (p : Spawner)
    → get_elem? p.containers h ≡ some c
    → Ages p (count_sent env h bytes c p)
unfolding count_sent
count_sent-Ages env h bytes c p e = record {
  grown = Grows-refl p.contexts;
  same = λ k l. ctx_at-set p.containers h k c _ e refl;
}

pub ctx_at-append :
    (cs ds : List Container) (h : ℕ) → h < length cs → ctx_at (cs ++ ds) h ≡ ctx_at cs h
ctx_at-append [] ds h l = absurd (ground arith)
ctx_at-append (c ∷ cs) ds zero l = refl
ctx_at-append (c ∷ cs) ds (suc h) l = ctx_at-append cs ds h (omega arith)

pub is_alive-Ages :
    (p q : Spawner) (h : ℕ)
    → Ages p q
    → h < length p.containers
    → is_alive q h ≡ true
    → is_alive p h ≡ true
unfolding is_alive
is_alive-Ages p q h a l e = elim (Option-cases (get_elem? p.containers h)) [
  | inl n ↦ ground (arith, a.same h l)
  | inr (c, n) ↦ ground (arith, a.same h l, a.grown.stays c.ctx)
]
