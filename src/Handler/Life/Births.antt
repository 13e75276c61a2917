-- ===== src/Handler/Life/Births.antt =====
-- What AddConnection, handler/spawner.go, does to the life of each connection.
use ezproxy.Base.{
  ℕ, ◌+◌, ◌%◌, ◌<◌, ◌≡◌, refl, true, false, none, some, [], ◌∷◌, length, get_elem?-append_last,
  arith, Bool-cases, Option-cases, inl, inr, ltb, ◌==◌,
}
use ezproxy.Base.Maps.{lookup, insert, lookup-insert}
use ezproxy.Errors.{Error, formatted}
use ezproxy.Context.{is_done}
use ezproxy.Context.Laws.{with_cancel-IsTree}
use ezproxy.Handler.State.{word, Proxy, Env, Spawner}
use ezproxy.Handler.Container.{is_alive, new_proxy_container}
use ezproxy.Handler.Connections.{add_connection, register}
use ezproxy.Handler.Connections.Laws.{newborn_alive}
use ezproxy.Handler.Connections.Adding.{
  made, newcomer, add_connection_dead, failed, add_connection-failed, add_connection-made,
  handle_error-keeps,
}
use ezproxy.Handler.Invariant.{IsValid}
use ezproxy.Handler.Invariant.Frame.{Grows-trans, cancel-Grows, with_cancel-Grows}
use ezproxy.Handler.Life.{stage, Move, rests, is_born}
use ezproxy.Handler.Life.Ageing.{Ages, ctx_at-append}
use ezproxy.Handler.Life.Moves.{stays-Move, Ages-Move}

pub made-Ages : (id : ℕ) (px : Proxy) (p : Spawner) → Ages p (made px id p)
made-Ages id px p = record {
  grown = with_cancel-Grows p.contexts p.context;
  same = λ h l. ctx_at-append p.containers (newcomer px id p ∷ []) h l;
}

pub failed-Ages : (px : Proxy) (x : Error) (p : Spawner) → IsValid p → Ages p (failed px x p)
failed-Ages px x p v =
    let a = made-Ages p.current_id px p in
    let t = with_cancel-IsTree p.contexts p.context v.tree v.rooted in
    record {
      grown = Grows-trans _ _ _ a.grown (cancel-Grows _ (length p.contexts) (formatted x) t);
      same = a.same;
    }

-- A connection that AddConnection has just registered is alive.
registered_alive :
    (px : Proxy) (p : Spawner)
    → is_done p.contexts p.context ≡ false
    → is_alive (register (length p.containers) (made px p.current_id p)) (length p.containers)
      ≡ true
unfolding is_alive register
registered_alive px p live =
    ground
      (arith, get_elem?-append_last p.containers (newcomer px p.current_id p), newborn_alive p live)

register-Move :
    (id : ℕ) (px : Proxy) (p : Spawner)
    → IsValid p
    → p.current_id + 1 < word
    → is_done p.contexts p.context ≡ false
    → Move (stage id p) (stage id (register (length p.containers) (made px p.current_id p)))
unfolding register
register-Move id px p v l live =
    let h = length p.containers in
    let found = lookup-insert p.current_id id h p.connections in
    elim (Bool-cases (p.current_id == id)) [
      | inl e ↦
          let below : ltb id p.current_id ≡ false = ground arith in
          let above : ltb id ((p.current_id + 1) % word) ≡ true = ground arith in
          let there : lookup id (insert p.current_id h p.connections) ≡ some h =
            ground (arith, found) in
          rw (below, above, there, registered_alive px p live) is_born
      | inr e ↦
          let same : ltb id ((p.current_id + 1) % word) ≡ ltb id p.current_id = ground arith in
          let there : lookup id (insert p.current_id h p.connections) ≡ lookup id p.connections =
            ground (arith, found) in
          let a = made-Ages p.current_id px p in
          rw (same, there) (stays-Move id p _ v (record { grown = a.grown; same = a.same }))
    ]

-- A proxy is added: its id is born, if it gets one, and the others rest.
pub add-Move :
    (id : ℕ) (env : Env) (px : Proxy) (p : Spawner)
    → IsValid p
    → p.current_id + 1 < word
    → Move (stage id p) (stage id (add_connection (new_proxy_container env) px p).1)
add-Move id env px p v l = elim (Bool-cases (is_done p.contexts p.context)) [
  | inl e ↦ rw (add_connection_dead env px p e) rests
  | inr live ↦ elim (Option-cases (env.init p.log px)) [
    | inr (x, e) ↦
        let a = failed-Ages px x p v in
        rw (add_connection-failed env px p x live e) (
          rw (handle_error-keeps x none (failed px x p))
            (Ages-Move id p _ v (record { grown = a.grown; same = a.same }) refl refl))
    | inl e ↦ rw (add_connection-made env px p live e) (register-Move id px p v l live)
  ]
]
