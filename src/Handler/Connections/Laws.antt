-- ===== src/Handler/Connections/Laws.antt =====
-- The table of connections, handler/spawner.go: AddConnection with NewProxyContainer, GetProxy and
-- CloseProxy.
use ezproxy.Base.{
  ℕ, ◌+◌, ◌<◌, ◌≡◌, ◌≢◌, refl, true, false, none, some, [], ◌∷◌, length, arith, Returns, get_elem?,
  length-append, get_elem?-append_last,
}
use ezproxy.Base.Maps.{lookup, lookup-insert, insert_fresh, lookup_above}
use ezproxy.Errors.{Error, formatted, proxy_closed_ok, proxy_not_found, ok, err}
use ezproxy.Context.{cause_of, is_done, with_cancel, cancel}
use ezproxy.Context.Laws.{is_done-cancel_self}
use ezproxy.Handler.State.{word, Proxy, Container, Env, Spawner}
use ezproxy.Handler.Invariant.{IsValid}
use ezproxy.Handler.Invariant.Frame.{cancel-IsValid, log-IsValid}
use ezproxy.Handler.Container.{new_proxy_container, cancel_container}
use ezproxy.Handler.Container.Store.{housed_at}
use ezproxy.Handler.Send.{handle_error}
use ezproxy.Handler.Connections.{register, add_connection, get_proxy, close_proxy}
use ezproxy.Handler.Connections.Adding.{
  handle_error-keeps, add_connection-failed, made, made-IsValid, id_at-append_last,
  add_connection-made, register-IsValid, newcomer, failed,
}

-- In a valid and live spawner a proxy whose Init fails gets no id: the table, the next id and the wait
-- group stay, the error is returned, the context of the container that was made for it is dead, and
-- the spawner stays valid.
pub add_connection_failed :
    (env : Env) (px : Proxy) (p : Spawner) (x : Error)
    → IsValid p
    → is_done p.contexts p.context ≡ false
    → env.init p.log px ≡ some x
    → let (r, q) = add_connection (new_proxy_container env) px p in
      (r ≡ err x)
      × (q.connections ≡ p.connections)
      × (q.current_id ≡ p.current_id)
      × (q.wg ≡ p.wg)
      × (is_done q.contexts (length p.contexts) ≡ true)
      × IsValid q
unfolding add_connection handle_error
add_connection_failed env px p x v live e =
    let w = made-IsValid px p.current_id p v in
    rw (add_connection-failed env px p x live e) (
      rw (handle_error-keeps x none (failed px x p)) (
        refl,
        refl,
        refl,
        refl,
        is_done-cancel_self _ (length p.contexts) (formatted x) w.tree
            (unfold with_cancel in omega arith),
        log-IsValid _ _
            (cancel-IsValid (made px p.current_id p) (length p.contexts) (formatted x) w),
      ))

pub newborn_alive :
    (p : Spawner)
    → is_done p.contexts p.context ≡ false
    → is_done (with_cancel p.contexts p.context).0 (length p.contexts) ≡ false
unfolding with_cancel is_done cause_of
newborn_alive p live = ground arith

-- In a valid and live spawner whose ids are not used up, a proxy whose Init succeeds is found under
-- the next id and no other id changes; the container is new and alive, the wait group and the next id
-- go up by one, and the spawner stays valid.
pub add_connection_ok :
    (env : Env) (px : Proxy) (p : Spawner)
    → IsValid p
    → is_done p.contexts p.context ≡ false
    → env.init p.log px ≡ none
    → p.current_id + 1 < word
    → let (r, q) = add_connection (new_proxy_container env) px p in
      (r ≡ ok (length p.containers))
      × (get_proxy p.current_id q ≡ ok (length p.containers))
      × ((k : ℕ) → k ≢ p.current_id → get_proxy k q ≡ get_proxy k p)
      × (get_elem? q.containers (length p.containers) ≡ some (newcomer px p.current_id p))
      × (is_done q.contexts (length p.contexts) ≡ false)
      × (q.current_id ≡ p.current_id + 1)
      × (q.wg ≡ p.wg + 1)
      × IsValid q
unfolding add_connection get_proxy
add_connection_ok env px p v live e l =
    let w = made-IsValid px p.current_id p v in
    rw (add_connection-made env px p live e) (
      refl,
      ground (arith, lookup-insert p.current_id p.current_id (length p.containers) p.connections),
      λ k n. ground (arith, lookup-insert p.current_id k (length p.containers) p.connections),
      get_elem?-append_last p.containers _,
      newborn_alive p live,
      unfold register in omega arith,
      refl,
      register-IsValid (length p.containers) (made px p.current_id p) w
          (id_at-append_last p.containers _) l,
    )

pub length-add_connection_ok :
    (env : Env) (px : Proxy) (p : Spawner)
    → IsValid p
    → is_done p.contexts p.context ≡ false
    → env.init p.log px ≡ none
    → length (add_connection (new_proxy_container env) px p).1.connections
      ≡ length p.connections + 1
length-add_connection_ok env px p v live e =
    let grown =
      insert_fresh p.current_id (length p.containers) p.connections
        (lookup_above p.current_id _ v.fresh) in
    rw (add_connection-made env px p live e) (
      unfold register in
      (rw grown (length-append p.connections ((p.current_id, length p.containers) ∷ []))))

-- CloseProxy of an unknown id reports it and changes nothing.
pub close_proxy_missing :
    (id : ℕ) (p : Spawner)
    → lookup id p.connections ≡ none
    → close_proxy id p ≡ some (some proxy_not_found, p)
unfolding close_proxy get_proxy
close_proxy_missing id p e = ground arith

close_proxy-cancelled :
    (id h : ℕ) (c : Container) (p : Spawner)
    → lookup id p.connections ≡ some h
    → get_elem? p.containers h ≡ some c
    → close_proxy id p
      ≡ some (none, record p { contexts = cancel p.contexts c.ctx proxy_closed_ok })
unfolding close_proxy get_proxy cancel_container
close_proxy-cancelled id h c p e f = ground arith

-- In a valid spawner CloseProxy of a known id succeeds, whatever state the container is in: its
-- context is dead then, the spawner is valid, and no table or container changes.
pub close_proxy_found :
    (id h : ℕ) (c : Container) (p : Spawner)
    → IsValid p
    → lookup id p.connections ≡ some h
    → get_elem? p.containers h ≡ some c
    → Returns (close_proxy id p) (λ r.
      (r.0 ≡ none)
      × IsValid r.1
      × (r.1.connections ≡ p.connections)
      × (r.1.containers ≡ p.containers)
      × (is_done r.1.contexts c.ctx ≡ true))
close_proxy_found id h c p v e f = rw (close_proxy-cancelled id h c p e f) (
  refl,
  cancel-IsValid p c.ctx proxy_closed_ok v,
  refl,
  refl,
  is_done-cancel_self p.contexts c.ctx proxy_closed_ok v.tree
      (housed_at _ p.containers h c f v.housed),
)
