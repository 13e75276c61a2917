-- ===== src/Api/Endpoints/Laws.antt =====
-- Injections through the API keep the spawner valid, api/endpoints.go.
use ezproxy.Base.{
  ℕ, ◌<◌, ◌≡◌, ◌≢◌, refl, Bool, true, false, not, ◌&&◌, Option, none, some, length, arith, Returns,
  Returns->>=, Bool-cases, Option-cases, inl, inr, ◌>>=◌, if◌then◌else◌,
}
use ezproxy.Base.Maps.{lookup}
use ezproxy.Errors.{Error}
use ezproxy.Handler.State.{Bytes, Env, Spawner}
use ezproxy.Handler.Invariant.{IsValid}
use ezproxy.Handler.Invariant.Frame.{lookup-stored}
use ezproxy.Handler.Container.{send_to, send_to_client, send_to_server}
use ezproxy.Handler.Process.Runs.{
  RangesOver, Acts, Acts-refl, Acts-trans, send_to-Acts, send_each-Acts, get_all_proxies-AreStored,
}
use ezproxy.Handler.Connections.{
  send_each, get_proxy, get_all_proxies, send_to_all_clients, send_to_all_servers,
}
use ezproxy.Api.Endpoints.{
  InjectData, Target, everyone, one, inject_at, Injected, sent, both, inject_into, ep_inject,
}

-- What does not panic, and is steps of the process, once the spawner has become what it is by steps.
unfoldable pub Keeps : (Spawner → Option (Option Error × Spawner)) → Spawner → Type 0
Keeps f p = (q : Spawner) → Acts p q → Returns (f q) (λ r. Acts q r.1)

one_side-Acts :
    (b : Bool) (f : Spawner → Option (Option Error × Spawner)) (p q : Spawner)
    → Keeps f p
    → Acts p q
    → Returns (if b then (f q >>= λ r. some r.1) else some q) (Acts p)
unfolding Keeps
one_side-Acts false f p q keeps k = k
one_side-Acts true f p q keeps k =
    Returns->>= (λ r. Acts q r.1) _ (f q) _ (keeps q k) (λ r _ j. Acts-trans p q r.1 k j)

pub both-Acts :
    (to_client to_server : Bool) (client server : Spawner → Option (Option Error × Spawner))
    (p : Spawner)
    → IsValid p
    → Keeps client p
    → Keeps server p
    → Returns (both to_client to_server client server p) (Acts p)
unfolding both
both-Acts to_client to_server client server p v c s =
    Returns->>= (Acts p) _ _ _ (one_side-Acts to_client client p p c (Acts-refl p v))
      (λ q _ k. one_side-Acts to_server server p q s k)

pub send_to-Keeps :
    (sb : Bool) (env : Env) (bytes : Bytes) (h : ℕ) (p : Spawner)
    → h < length p.containers
    → Keeps (send_to sb env bytes h) p
unfolding Keeps
send_to-Keeps sb env bytes h p l q k =
    send_to-Acts sb env bytes h q k.0.valid (omega (arith, l, k.0.stored))

pub send_to_all-Keeps :
    (sb : Bool) (env : Env) (bytes : Bytes) (p : Spawner)
    → RangesOver env
    → Keeps (λ q. send_each sb env bytes none (get_all_proxies env q) q) p
unfolding Keeps
send_to_all-Keeps sb env bytes p o q k =
    send_each-Acts sb env bytes none (get_all_proxies env q) q k.0.valid
      (get_all_proxies-AreStored env q o k.0.valid)

-- What epInject leaves: a spawner that has taken steps of the process only, and none unless the answer
-- is 200.
abbrev pub IsInjection : Spawner → Injected × Spawner → Type 0
IsInjection p r = Acts p r.1 × (r.0 ≢ sent → r.1 ≡ p)

done-IsInjection :
    (m : Option Spawner) (p : Spawner)
    → Returns m (Acts p)
    → Returns (m >>= λ q. some (sent, q)) (IsInjection p)
done-IsInjection m p k =
    Returns->>= (Acts p) (IsInjection p) m _ k (λ q _ j. (j, λ n. absurd (n refl)))

inject_at-IsInjection :
    (env : Env) (bytes : Bytes) (a b : Bool) (t : Target) (p : Spawner)
    → RangesOver env
    → IsValid p
    → Returns (inject_at env bytes a b t p) (IsInjection p)
unfolding inject_at send_to_all_clients send_to_all_servers send_to_client send_to_server get_proxy
inject_at-IsInjection env bytes a b everyone p o v = done-IsInjection _ p (
    both-Acts a b _ _ p v (send_to_all-Keeps false env bytes p o)
      (send_to_all-Keeps true env bytes p o))
inject_at-IsInjection env bytes a b (one id) p o v = elim (Option-cases (lookup id p.connections)) [
  | inr (h, e) ↦
      let l = lookup-stored id h p p.connections v.located e in
      rw (Returns, e)
        (done-IsInjection _ p (
          both-Acts a b _ _ p v (send_to-Keeps false env bytes h p l)
            (send_to-Keeps true env bytes h p l)))
  | inl e ↦ rw (Returns, e) (Acts-refl p v, λ n. refl)
]

-- An injection request to a valid spawner does not make the server panic, and all that it does is steps
-- of the process, which keep the spawner valid, its table and its next id, whatever it asks for, if a
-- range over a map visits only entries of the map; a request that is not answered with 200 changes
-- nothing.
pub ep_inject-IsInjection :
    (decode : Bytes → Option InjectData) (env : Env) (body : Option Bytes) (p : Spawner)
    → RangesOver env
    → IsValid p
    → Returns (ep_inject decode env body p) (IsInjection p)
unfolding ep_inject inject_into
ep_inject-IsInjection decode env none p o v = (Acts-refl p v, λ n. refl)
ep_inject-IsInjection decode env (some bytes) p o v = elim (Option-cases (decode bytes)) [
  | inl e ↦ rw e (Acts-refl p v, λ n. refl)
  | inr (d, e) ↦ rw e (elim (Bool-cases (not d.to_client && not d.to_server)) [
    | inl n ↦ rw n (Acts-refl p v, λ m. refl)
    | inr n ↦ rw n (inject_at-IsInjection env d.content d.to_client d.to_server d.target p o v)
  ])
]
