-- ===== src/Handler/Pruner/Laws.antt =====
-- The first half of pruner, handler/spawner.go: the dead connections leave the table.
use mathlib.Core.List.{append_assoc}
use ezproxy.Base.{
  ℕ, suc, ◌+◌, ◌-◌, ◌≤◌, ◌≡◌, refl, sym, ap, ◌∙◌, none, some, List, [], ◌∷◌, ◌++◌, if◌then◌else◌,
  length, All, arith, Bool-cases, Returns, inl, inr,
}
use ezproxy.Base.Maps.{lookup, lookup-append}
use ezproxy.Handler.State.{Spawner}
use ezproxy.Handler.Invariant.{IsValid, IsMap}
use ezproxy.Handler.Container.{is_alive}
use ezproxy.Handler.Listener.{wg_done}
use ezproxy.Handler.Pruner.{dead_keys, delete, delete_each, prune_connections}

-- The table without its dead connections.
abbrev pub alive_only : Spawner → List (ℕ × ℕ) → List (ℕ × ℕ)
alive_only p [] = []
alive_only p ((k, h) ∷ m) = if is_alive p h then (k, h) ∷ alive_only p m else alive_only p m

-- No key of the second table is in the first.
abbrev Apart : List (ℕ × ℕ) → List (ℕ × ℕ) → Type 0
Apart front m = All (λ e. lookup e.0 front ≡ none) m

Apart-nil : (m : List (ℕ × ℕ)) → Apart [] m
unfolding lookup
Apart-nil [] = tt
Apart-nil (e ∷ m) = (refl, Apart-nil m)

Apart-snoc :
    (k h : ℕ) (front m : List (ℕ × ℕ))
    → Apart front m
    → lookup k m ≡ none
    → Apart (front ++ (k, h) ∷ []) m
unfolding lookup
Apart-snoc k h front [] a n = tt
Apart-snoc k h front ((j, g) ∷ m) a n =
    (lookup-append j k h front a.0 (ground arith), Apart-snoc k h front m a.1 (ground arith))

delete-append :
    (k h : ℕ) (front m : List (ℕ × ℕ))
    → lookup k front ≡ none
    → delete k (front ++ (k, h) ∷ m) ≡ front ++ m
unfolding delete lookup
delete-append k h [] m n = ground arith
delete-append k h ((j, g) ∷ front) m n = ground (arith, delete-append k h front m)

wg_done_pos : (p : Spawner) (n : ℕ) → p.wg ≡ suc n → wg_done p ≡ some (record p { wg = n })
unfolding wg_done
wg_done_pos p n e = ground arith

delete_each-dead :
    (p₀ p : Spawner) (front m : List (ℕ × ℕ)) (n : ℕ)
    → Apart front m
    → IsMap m
    → p.connections ≡ front ++ m
    → p.wg ≡ n + length (dead_keys p₀ m)
    → delete_each (dead_keys p₀ m) p
      ≡ some (record p { connections = front ++ alive_only p₀ m; wg = n })
unfolding delete_each dead_keys
delete_each-dead p₀ p front [] n a d e w = ground arith
delete_each-dead p₀ p front ((k, h) ∷ m) n a d e w = elim (Bool-cases (is_alive p₀ h)) [
  | inl alive ↦
      let w' : p.wg ≡ n + length (dead_keys p₀ m) = ground arith in
      rw alive (
        delete_each-dead p₀ p (front ++ (k, h) ∷ []) m n (Apart-snoc k h front m a.1 d.0) d.1
          (e ∙ sym (append_assoc front ((k, h) ∷ []) m)) w'
        ∙ ap (λ cs. some (record p { connections = cs; wg = n }))
            (append_assoc front ((k, h) ∷ []) (alive_only p₀ m)))
  | inr dead ↦
      let w' : p.wg ≡ suc (n + length (dead_keys p₀ m)) = ground arith in
      let cut : Spawner = record p { connections = delete k p.connections } in
      rw dead (
        rw (wg_done_pos cut (n + length (dead_keys p₀ m)) w') (
          delete_each-dead p₀ (record cut { wg = n + length (dead_keys p₀ m) }) front m n a.1 d.1
            (ap (delete k) e ∙ delete-append k h front m a.0) refl))
]

dead-le : (p : Spawner) (m : List (ℕ × ℕ)) → length (dead_keys p m) ≤ length m
unfolding dead_keys
dead-le p [] = omega arith
dead-le p ((k, h) ∷ m) = ground (arith, dead-le p m)

-- In a valid spawner a tick takes exactly the dead connections out of the table, one count of the wait group for each,
-- and never drives that count below zero.
pub prune_connections_exact :
    (p : Spawner)
    → IsValid p
    → prune_connections p
      ≡ some (record p {
        connections = alive_only p p.connections;
        wg = p.wg - length (dead_keys p p.connections);
      })
unfolding prune_connections
prune_connections_exact p v =
    delete_each-dead p p [] p.connections _ (Apart-nil p.connections) v.distinct refl
      (omega (arith, v.counted, dead-le p p.connections))

alive-total :
    (p : Spawner) (m : List (ℕ × ℕ)) → length (alive_only p m) + length (dead_keys p m) ≡ length m
unfolding dead_keys
alive-total p [] = omega arith
alive-total p ((k, h) ∷ m) = ground (arith, alive-total p m)

All-alive_only :
    (P : ℕ × ℕ → Type 0) (p : Spawner) (m : List (ℕ × ℕ)) → All P m → All P (alive_only p m)
All-alive_only P p [] a = tt
All-alive_only P p ((k, h) ∷ m) a = elim (Bool-cases (is_alive p h)) [
  | inl alive ↦ rw alive (a.0, All-alive_only P p m a.1)
  | inr dead ↦ rw dead (All-alive_only P p m a.1)
]

lookup-alive_only :
    (k : ℕ) (p : Spawner) (m : List (ℕ × ℕ)) → lookup k m ≡ none → lookup k (alive_only p m) ≡ none
unfolding lookup
lookup-alive_only k p [] n = refl
lookup-alive_only k p ((j, h) ∷ m) n = ground (arith, lookup-alive_only k p m)

IsMap-alive_only : (p : Spawner) (m : List (ℕ × ℕ)) → IsMap m → IsMap (alive_only p m)
IsMap-alive_only p [] d = tt
IsMap-alive_only p ((k, h) ∷ m) d = elim (Bool-cases (is_alive p h)) [
  | inl alive ↦ rw alive (lookup-alive_only k p m d.0, IsMap-alive_only p m d.1)
  | inr dead ↦ rw dead (IsMap-alive_only p m d.1)
]

pub prune_connections-IsValid : (p : Spawner) → IsValid p → Returns (prune_connections p) IsValid
prune_connections-IsValid p v = rw (prune_connections_exact p v) (record {
  tree = v.tree;
  rooted = v.rooted;
  fresh = All-alive_only _ p p.connections v.fresh;
  located = All-alive_only _ p p.connections v.located;
  distinct = IsMap-alive_only p p.connections v.distinct;
  linked = v.linked;
  filter_made = v.filter_made;
  housed = v.housed;
  channels = v.channels;
  counted = omega (arith, v.counted, alive-total p p.connections);
})

-- The wait group falls with the table.
pub prune_connections-waits :
    (p q : Spawner)
    → IsValid p
    → prune_connections p ≡ some q
    → length q.connections + p.wg ≡ length p.connections + q.wg
prune_connections-waits p q v e =
    let same = sym e ∙ prune_connections_exact p v in
    let q' : q ≡ record p {
      connections = alive_only p p.connections;
      wg = p.wg - length (dead_keys p p.connections);
    } =
      ground (arith, same) in
    rw q' (omega (arith, v.counted, alive-total p p.connections))
