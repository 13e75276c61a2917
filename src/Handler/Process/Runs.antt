-- ===== src/Handler/Process/Runs.antt =====
-- Runs of the process of package handler, put together: what its users do to a spawner is steps.
use ezproxy.Base.{
  ℕ, ◌<◌, ◌≡◌, refl, sym, ◌∙◌, Bool, true, false, Option, none, some, List, [], ◌∷◌, length, map,
  All, arith, Returns, Returns->>=, Returns-map, Bool-cases, ◌⊎◌, inl, inr, if◌then◌else◌,
  get_elem?-some,
}
use ezproxy.Errors.{Error, proxy_closed_ok}
use ezproxy.Context.{cancel}
use ezproxy.Handler.State.{Bytes, Effect, Env, Spawner}
use ezproxy.Handler.Invariant.{IsValid, id_at}
use ezproxy.Handler.Invariant.Frame.{id_at-stored, cancel-IsValid, cancel-Grows}
use ezproxy.Handler.Life.Ageing.{Ages-refl, Ages-trans}
use ezproxy.Handler.Container.{send_to, is_alive, cancel_container}
use ezproxy.Handler.Container.Laws.{IsKept, IsKept-refl, send_to-IsKept}
use ezproxy.Handler.Connections.{send_each, first_error, get_all_proxies, close_each}
use ezproxy.Handler.Process.{Process, Reach, here, next, cancels, injects}

-- The process of a spawner with so many listeners
abbrev pub process : ℕ → Spawner → Process
process n p = record { spawner = p; listeners = n }

-- One run after another
pub Reach-trans : {t u v : Process} → Reach t u → Reach u v → Reach t v
Reach-trans a here = a
Reach-trans a (next b s) = next (Reach-trans a b) s

pub cancel-Reach :
    (n ctx : ℕ) (e : Error) (p : Spawner)
    → Reach (process n p) (process n (record p { contexts = cancel p.contexts ctx e }))
cancel-Reach n ctx e p = next here (cancels ctx e refl)

-- A range over a map visits only entries of the map.
abbrev pub RangesOver : Env → Type 1
RangesOver env =
    (l : List Effect) (m : List (ℕ × ℕ)) (P : ℕ × ℕ → Type 0) → All P m → All P (env.order l m)

-- The second spawner is what the first one becomes by steps of the process, which keep it valid and
-- leave its table, its wait group and the next id alone.
abbrev pub Acts : Spawner → Spawner → Type 0
Acts p q = IsKept p q × ((n : ℕ) → Reach (process n p) (process n q))

pub Acts-refl : (p : Spawner) → IsValid p → Acts p p
Acts-refl p v = (IsKept-refl p v, λ n. here)

IsKept-trans : (p q r : Spawner) → IsKept p q → IsKept q r → IsKept p r
IsKept-trans p q r k j = record {
  valid = j.valid;
  stored = j.stored ∙ k.stored;
  table = j.table ∙ k.table;
  waits = j.waits ∙ k.waits;
  ages = Ages-trans p q r k.ages j.ages (sym k.stored);
  next = j.next ∙ k.next;
}

pub Acts-trans : (p q r : Spawner) → Acts p q → Acts q r → Acts p r
Acts-trans p q r a b = (IsKept-trans p q r a.0 b.0, λ n. Reach-trans (a.1 n) (b.1 n))

pub send_to-Acts :
    (sb : Bool) (env : Env) (bytes : Bytes) (h : ℕ) (p : Spawner)
    → IsValid p
    → h < length p.containers
    → Returns (send_to sb env bytes h p) (λ r. Acts p r.1)
send_to-Acts sb env bytes h p v l =
    Returns-map (λ (r : Option Error × Spawner). IsKept p r.1)
      (λ (r : Option Error × Spawner). Acts p r.1) _ (send_to-IsKept sb env bytes h p v l)
      (λ (r : Option Error × Spawner) e k.
        (k, λ n. next here (injects env sb bytes h r.1 r.0 l e refl)))

abbrev pub AreStored : Spawner → List ℕ → Type 0
AreStored p hs = All (λ h. h < length p.containers) hs

AreStored-kept : (p q : Spawner) (hs : List ℕ) → IsKept p q → AreStored p hs → AreStored q hs
AreStored-kept p q [] k a = tt
AreStored-kept p q (h ∷ hs) k a = (omega (arith, k.stored, a.0), AreStored-kept p q hs k a.1)

All-map_places :
    (p : Spawner) (m : List (ℕ × ℕ))
    → All (λ e. id_at p.containers e.1 ≡ some e.0) m
    → AreStored p (map (λ e. e.1) m)
All-map_places p [] a = tt
All-map_places p ((k, h) ∷ m) a = (id_at-stored p.containers h k a.0, All-map_places p m a.1)

pub get_all_proxies-AreStored :
    (env : Env) (p : Spawner) → RangesOver env → IsValid p → AreStored p (get_all_proxies env p)
unfolding get_all_proxies
get_all_proxies-AreStored env p o v =
    All-map_places p (env.order p.log p.connections) (o p.log p.connections _ v.located)

-- The sends of SendToAllClients and SendToAllServers.
pub send_each-Acts :
    (sb : Bool) (env : Env) (bytes : Bytes) (seen : Option Error) (hs : List ℕ) (p : Spawner)
    → IsValid p
    → AreStored p hs
    → Returns (send_each sb env bytes seen hs p) (λ r. Acts p r.1)
unfolding send_each
send_each-Acts sb env bytes seen [] p v a = Acts-refl p v
send_each-Acts sb env bytes seen (h ∷ hs) p v a =
    Returns->>= (λ r. Acts p r.1) _ _ _ (sent_or_not (Bool-cases (is_alive p h)))
      (λ r _ k.
        Returns-map (λ (s : Option Error × Spawner). Acts r.1 s.1)
          (λ (s : Option Error × Spawner). Acts p s.1) _
          (send_each-Acts sb env bytes (first_error seen r.0) hs r.1 k.0.valid
            (AreStored-kept p r.1 hs k.0 a.1))
          (λ (s : Option Error × Spawner) _ j. Acts-trans p r.1 s.1 k j))
  where
    sent_or_not :
        (is_alive p h ≡ true) ⊎ (is_alive p h ≡ false)
        → Returns
            (if is_alive p h then send_to sb env bytes h p else some (none, p))
            (λ r. Acts p r.1)
    sent_or_not (inl e) = rw e (send_to-Acts sb env bytes h p v a.0)
    sent_or_not (inr e) = rw e (Acts-refl p v)

pub cancel_container-Acts :
    (cause : Error) (h : ℕ) (p : Spawner)
    → IsValid p
    → h < length p.containers
    → Returns (cancel_container cause h p) (Acts p)
unfolding cancel_container
cancel_container-Acts cause h p v l =
    let (c, e) = get_elem?-some p.containers h l in
    rw (Returns, e)
      (
        record {
          valid = cancel-IsValid p c.ctx cause v;
          stored = refl;
          table = refl;
          waits = refl;
          ages = Ages-refl p _ (cancel-Grows p.contexts c.ctx cause v.tree) refl;
          next = refl;
        },
        λ n. cancel-Reach n c.ctx cause p,
      )

-- The loop that closes all containers.
pub close_each-Acts :
    (hs : List ℕ) (p : Spawner) → IsValid p → AreStored p hs → Returns (close_each hs p) (Acts p)
unfolding close_each
close_each-Acts [] p v a = Acts-refl p v
close_each-Acts (h ∷ hs) p v a =
    Returns->>= (Acts p) _ _ _ (cancel_container-Acts proxy_closed_ok h p v a.0) (λ q _ k.
      Returns-map (Acts q) (Acts p) _
        (close_each-Acts hs q k.0.valid (AreStored-kept p q hs k.0 a.1))
        (λ r _ j. Acts-trans p q r k j))
