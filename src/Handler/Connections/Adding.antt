-- ===== src/Handler/Connections/Adding.antt =====
-- AddConnection with NewProxyContainer step by step, handler/spawner.go and handler/proxy.go.
use ezproxy.Base.{
  ℕ, zero, suc, ◌+◌, ◌%◌, ◌<◌, ◌≡◌, refl, true, false, Option, none, some, List, [], ◌∷◌, ◌++◌,
  length, All, All-map, All-append, arith, length-append,
}
use ezproxy.Base.Maps.{lookup, insert_fresh, lookup_above, lookup-append}
use ezproxy.Errors.{Error, formatted, canceled, ok, err}
use ezproxy.Context.{is_done, with_cancel, cancel}
use ezproxy.Handler.State.{word, Proxy, Container, Env, Spawner}
use ezproxy.Handler.Invariant.{IsValid, IsMap, id_at}
use ezproxy.Handler.Invariant.Frame.{with_cancel-IsValid}
use ezproxy.Handler.Container.{new_proxy_container}
use ezproxy.Handler.Send.{handle_error}
use ezproxy.Handler.Connections.{register, add_connection}

-- The new container.
abbrev pub newcomer : Proxy → ℕ → Spawner → Container
newcomer px id p = record {
  id = id;
  ctx = length p.contexts;
  px = px;
  bytes_sent = 0;
  last_contact = 0;
}

-- The state once the container is made, before its Init.
abbrev pub made : Proxy → ℕ → Spawner → Spawner
made px id p = record p {
  contexts = (with_cancel p.contexts p.context).0;
  containers = p.containers ++ newcomer px id p ∷ [];
}

id_at-append :
    (cs : List Container) (c : Container) (h k : ℕ)
    → id_at cs h ≡ some k
    → id_at (cs ++ c ∷ []) h ≡ some k
id_at-append [] c h k e = cc
id_at-append (x ∷ cs) c zero k e = e
id_at-append (x ∷ cs) c (suc h) k e = id_at-append cs c h k e

pub made-IsValid : (px : Proxy) (id : ℕ) (p : Spawner) → IsValid p → IsValid (made px id p)
made-IsValid px id p v =
    let w = with_cancel-IsValid p p.context v v.rooted in
    record {
      tree = w.tree;
      rooted = w.rooted;
      fresh = w.fresh;
      located =
          All-map _ _ p.connections (λ e. id_at-append p.containers (newcomer px id p) e.1 e.0)
            v.located;
      distinct = w.distinct;
      linked = w.linked;
      filter_made = w.filter_made;
      housed = All-append _ p.containers _ w.housed (unfold with_cancel in omega arith, tt);
      channels = w.channels;
      counted = w.counted;
    }

-- NewProxyContainer on both branches of Init.
new_proxy_container_ok :
    (env : Env) (px : Proxy) (id : ℕ) (p : Spawner)
    → env.init p.log px ≡ none
    → new_proxy_container env px id p ≡ (ok (length p.containers), made px id p)
unfolding new_proxy_container
new_proxy_container_ok env px id p e = ground arith

new_proxy_container_err :
    (env : Env) (px : Proxy) (id : ℕ) (p : Spawner) (x : Error)
    → env.init p.log px ≡ some x
    → new_proxy_container env px id p ≡ (
      err x,
      record (made px id p) {
        contexts = cancel (made px id p).contexts (length p.contexts) (formatted x);
      },
    )
unfolding new_proxy_container
new_proxy_container_err env px id p x e = ground arith

pub id_at-append_last :
    (cs : List Container) (c : Container) → id_at (cs ++ c ∷ []) (length cs) ≡ some c.id
id_at-append_last [] c = refl
id_at-append_last (x ∷ cs) c = id_at-append_last cs c

All-fresh : (n : ℕ) (m : List (ℕ × ℕ)) → All (λ e. e.0 < n) m → All (λ e. e.0 < suc n) m
All-fresh n [] a = tt
All-fresh n (e ∷ m) a = (omega (arith, a.0), All-fresh n m a.1)

IsMap-append :
    (k h : ℕ) (m : List (ℕ × ℕ)) → All (λ e. e.0 < k) m → IsMap m → IsMap (m ++ (k, h) ∷ [])
unfolding lookup
IsMap-append k h [] a d = (refl, tt)
IsMap-append k h ((j, g) ∷ m) a d =
    (lookup-append j k h m d.0 (omega (arith, a.0)), IsMap-append k h m a.1 d.1)

pub register-IsValid :
    (h : ℕ) (p : Spawner)
    → IsValid p
    → id_at p.containers h ≡ some p.current_id
    → p.current_id + 1 < word
    → IsValid (register h p)
unfolding register
register-IsValid h p v e l =
    let wrap : (p.current_id + 1) % word ≡ suc p.current_id = omega arith in
    let grown = insert_fresh p.current_id h p.connections (lookup_above p.current_id _ v.fresh) in
    rw (grown, wrap)
      (record {
        tree = v.tree;
        rooted = v.rooted;
        fresh =
            All-append _ p.connections _ (All-fresh p.current_id p.connections v.fresh)
              (omega arith, tt);
        located = All-append _ p.connections _ v.located (e, tt);
        distinct = IsMap-append p.current_id h p.connections v.fresh v.distinct;
        linked = v.linked;
        filter_made = v.filter_made;
        housed = v.housed;
        channels = v.channels;
        counted = omega (arith, v.counted, length-append p.connections ((p.current_id, h) ∷ []));
      })

-- AddConnection on a dead spawner changes nothing.
pub add_connection_dead :
    (env : Env) (px : Proxy) (p : Spawner)
    → is_done p.contexts p.context ≡ true
    → add_connection (new_proxy_container env) px p ≡ (err canceled, p)
unfolding add_connection
add_connection_dead env px p d = ground arith

abbrev pub failed : Proxy → Error → Spawner → Spawner
failed px x p = record (made px p.current_id p) {
  contexts = cancel (made px p.current_id p).contexts (length p.contexts) (formatted x);
}

pub add_connection-failed :
    (env : Env) (px : Proxy) (p : Spawner) (x : Error)
    → is_done p.contexts p.context ≡ false
    → env.init p.log px ≡ some x
    → add_connection (new_proxy_container env) px p ≡ (err x, handle_error x none (failed px x p))
unfolding add_connection
add_connection-failed env px p x live e =
    rw (live, new_proxy_container_err env px p.current_id p x e)

pub add_connection-made :
    (env : Env) (px : Proxy) (p : Spawner)
    → is_done p.contexts p.context ≡ false
    → env.init p.log px ≡ none
    → add_connection (new_proxy_container env) px p
      ≡ (ok (length p.containers), register (length p.containers) (made px p.current_id p))
unfolding add_connection
add_connection-made env px p live e = rw (live, new_proxy_container_ok env px p.current_id p e)

pub handle_error-keeps :
    (x : Error) (pc : Option ℕ) (p : Spawner)
    → handle_error x pc p ≡ record p { log = (handle_error x pc p).log }
unfolding handle_error
handle_error-keeps x pc p = ground arith
