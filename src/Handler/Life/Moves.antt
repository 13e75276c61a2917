-- ===== src/Handler/Life/Moves.antt =====
-- What a call that lets connections age, and the first loop of a tick of the pruner (handler/spawner.go),
-- do to the life of each.
use ezproxy.Base.{
  ℕ, ◌-◌, ◌≡◌, refl, sym, ◌∙◌, true, Option, none, some, List, [], ◌∷◌, length, arith, Bool-cases,
  inl, inr, ltb, if◌then◌else◌,
}
use ezproxy.Base.Maps.{lookup}
use ezproxy.Handler.State.{Spawner}
use ezproxy.Handler.Container.{is_alive}
use ezproxy.Handler.Invariant.{IsValid, IsMap}
use ezproxy.Handler.Invariant.Frame.{lookup-stored}
use ezproxy.Handler.Pruner.{dead_keys, prune_connections}
use ezproxy.Handler.Pruner.Laws.{alive_only, prune_connections_exact}
use ezproxy.Handler.Life.{unborn, of_place, stage, Move, rests, dies, leaves}
use ezproxy.Handler.Life.Ageing.{IsQuiet, Ages, Ages-refl, is_alive-Ages}

-- A place of the table, before and after its context may have died.
place-Move :
    (p q : Spawner) (o : Option ℕ)
    → ((h : ℕ) → o ≡ some h → is_alive q h ≡ true → is_alive p h ≡ true)
    → Move (of_place p o) (of_place q o)
place-Move p q none a = rests
place-Move p q (some h) a = elim (Bool-cases (is_alive p h)) [
  | inr e ↦ elim (Bool-cases (is_alive q h)) [
    | inr f ↦ rw (e, f) rests
    | inl f ↦ absurd (ground (arith, a h refl f))
  ]
  | inl e ↦ elim (Bool-cases (is_alive q h)) [ inr f ↦ rw (e, f) dies | inl f ↦ rw (e, f) rests ]
]

-- The entry of an id in the table, before and after.
pub stays-Move :
    (id : ℕ) (p q : Spawner)
    → IsValid p
    → Ages p q
    → Move
        (stage id p)
        (if ltb id p.current_id then of_place q (lookup id p.connections) else unborn)
unfolding is_alive
stays-Move id p q v a = elim (Bool-cases (ltb id p.current_id)) [
  | inr e ↦ rw e rests
  | inl e ↦ rw e (
      place-Move p q (lookup id p.connections)
        (λ h f. is_alive-Ages p q h a (lookup-stored id h p p.connections v.located f)))
]

-- A call that leaves the table alone lets connections die, and nothing else.
pub Ages-Move :
    (id : ℕ) (p q : Spawner)
    → IsValid p
    → Ages p q
    → q.connections ≡ p.connections
    → q.current_id ≡ p.current_id
    → Move (stage id p) (stage id q)
unfolding is_alive
Ages-Move id p q v a c n = rw (c, n) (stays-Move id p q v a)

pub IsQuiet-Move :
    (id : ℕ) (p q : Spawner) → IsValid p → IsQuiet p q → Move (stage id p) (stage id q)
IsQuiet-Move id p q v k = Ages-Move id p q v (Ages-refl p q k.grown k.stored) k.table k.next

lookup-alive_only :
    (id : ℕ) (p : Spawner) (m : List (ℕ × ℕ))
    → IsMap m
    → lookup id (alive_only p m)
      ≡ elim (lookup id m) [ none ↦ none | some h ↦ if is_alive p h then some h else none ]
unfolding lookup
lookup-alive_only id p [] d = refl
lookup-alive_only id p ((k, h) ∷ m) d = elim (Bool-cases (is_alive p h)) [
  | inl a ↦ rw a (ground (arith, lookup-alive_only id p m d.1))
  | inr a ↦ rw a (ground (arith, lookup-alive_only id p m d.1, d.0))
]

abbrev pruned : Spawner → Spawner
pruned p = record p {
  connections = alive_only p p.connections;
  wg = p.wg - length (dead_keys p p.connections);
}

pruned-Move :
    (p : Spawner) (o : Option ℕ)
    → Move (of_place p o) (
        of_place
          (pruned p)
          (elim o [ none ↦ none | some h ↦ if is_alive p h then some h else none ]))
unfolding is_alive
pruned-Move p none = rests
pruned-Move p (some h) = elim (Bool-cases (is_alive p h)) [
  | inl e ↦ rw (e, e) rests
  | inr e ↦ rw e leaves
]

pub prune-Move :
    (id : ℕ) (p q : Spawner)
    → IsValid p
    → prune_connections p ≡ some q
    → Move (stage id p) (stage id q)
unfolding is_alive
prune-Move id p q v e =
    let same = sym e ∙ prune_connections_exact p v in
    let q' : q ≡ pruned p = ground (arith, same) in
    rw q' (elim (Bool-cases (ltb id p.current_id)) [
      | inr f ↦ rw f rests
      | inl f ↦
          rw (f, lookup-alive_only id p p.connections v.distinct)
            (pruned-Move p (lookup id p.connections))
    ])
