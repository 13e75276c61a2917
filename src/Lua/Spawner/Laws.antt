-- ===== src/Lua/Spawner/Laws.antt =====
-- What a script can do to the spawner, ezp_lua/spawner.go.
use ezproxy.Base.{
  ap, ℕ, ◌≡◌, refl, ap, Option, none, some, List, ◌∷◌, ◌==◌, ◌>>=◌, Bool-cases, Option-cases, inl,
  inr,
}
use ezproxy.Errors.{Error, Result-cases}
use ezproxy.Handler.State.{Env, Spawner}
use ezproxy.Handler.Connections.{get_proxy}
use ezproxy.Lua.Values.{Value, Checks, Outcome}
use ezproxy.Lua.Proxy.{sent}
use ezproxy.Lua.Spawner.{
  fresh_lua_spawner, minus_one, inject_args, Sends, client_sends, inject_with, ignored,
  bind_inject_to_client, bind_inject_to_both,
}
use ezproxy.Lua.Spawner.Packets.{Wake, watch, panics, bind_set_callback}

-- The spawner that a call leaves, unless it panics.
abbrev pub left : Option (Outcome × Spawner) → Option Spawner
left o = o >>= λ (r : Outcome × Spawner). some r.1

-- The spawner after a send does not depend on what becomes of its error.
finish-left :
    (f g : Option Error × Spawner → Outcome × Spawner) (m : Option (Option Error × Spawner))
    → ((r : Option Error × Spawner) → (f r).1 ≡ (g r).1)
    → left (m >>= λ r. some (f r)) ≡ left (m >>= λ r. some (g r))
finish-left f g none h = refl
finish-left f g (some r) h = ap some (h r)

inject_with-left :
    (f g : Option Error × Spawner → Outcome × Spawner) (s : Sends) (lua : Checks)
    (args : List Value) (p : Spawner)
    → ((r : Option Error × Spawner) → (f r).1 ≡ (g r).1)
    → left (inject_with f s lua args p) ≡ left (inject_with g s lua args p)
unfolding inject_with
inject_with-left f g s lua args p h = elim (Option-cases (inject_args lua args)) [
  | inl e ↦ rw (inject_with, e) refl
  | inr ((id, d), e) ↦ elim (Bool-cases (id == minus_one)) [
    | inl all ↦ rw (inject_with, e, all) (finish-left f g (s.to_all d p) h)
    | inr one ↦ elim (Result-cases (get_proxy id p)) [
      | inr (x, m) ↦ rw (inject_with, e, one, m) refl
      | inl (k, m) ↦ rw (inject_with, e, one, m) (finish-left f g (s.to_one d k p) h)
    ]
  ]
]

-- inject_to_both does to the spawner, its containers and their sockets exactly what inject_to_client
-- does with the same arguments.
pub bind_inject_to_both-left :
    (lua : Checks) (env : Env) (args : List Value) (p : Spawner)
    → left (bind_inject_to_both lua env args p) ≡ left (bind_inject_to_client lua env args p)
unfolding bind_inject_to_both bind_inject_to_client sent
bind_inject_to_both-left lua env args p =
    inject_with-left ignored sent (client_sends env) lua args p same
  where
    same : (r : Option Error × Spawner) → (ignored r).1 ≡ (sent r).1
    same (none, q) = refl
    same (some e, q) = refl

-- A luaSpawner as it is made can never watch packets: get_packets with a function panics, whatever the
-- spawner is.
pub bind_set_callback_panics :
    (lua : Checks) (ws : List Wake) (v : Value) (vs : List Value) (f : ℕ) (p : Spawner)
    → lua.check_function v ≡ some f
    → bind_set_callback lua ws (v ∷ vs) fresh_lua_spawner p ≡ panics
unfolding bind_set_callback watch fresh_lua_spawner
bind_set_callback_panics lua ws v vs f p e = rw (bind_set_callback, e) refl
