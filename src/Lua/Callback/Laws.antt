-- ===== src/Lua/Callback/Laws.antt =====
-- What the callbacks of a script can do, ezp_lua/callback.go.
use Prim.Native.String.{String}
use ezproxy.Base.{
  ℕ, ◌<◌, ◌≡◌, ◌≢◌, refl, sym, ap, true, false, Option, none, some, List, arith, Option-cases, inl,
  inr, length, is_some,
}
use ezproxy.Errors.{Error, canceled, no_callbacks, both_callbacks, callback_exists}
use ezproxy.Context.{Contexts, is_done, with_cancel, cause_of, IsTree}
use ezproxy.Context.Laws.{child-cancelled, with_cancel-IsTree}
use ezproxy.Handler.State.{Bytes, Container, Spawner}
use ezproxy.Handler.Lifecycle.{set_filter, try_set_filter_callback}
use ezproxy.Lua.Values.{bool_value, packet_data_to_table, Called, failed, returned, Function}
use ezproxy.Lua.Callback.{
  lua_cancel, answer_of, filter_packet, handle_filters, Event, Globals, as_function, returns, leave,
  of_run, watch_packets, install_filter, run_lua_callback,
}

answer_of-false :
    (r : Called) (c : ℕ) (p q : Spawner)
    → answer_of r c p ≡ (false, q)
    → (r ≡ returned (bool_value false)) × (q ≡ p)
unfolding answer_of
answer_of-false failed c p q e = ground arith
answer_of-false (returned (bool_value b)) c p q e =
    (ap (λ x. returned (bool_value x)) (ap (λ r. r.0) e), sym (ap (λ r. r.1) e))
answer_of-false (returned _) c p q e = ground arith

-- A script can drop a packet only by answering false: a call that fails, or another answer, lets the
-- packet through. Then the spawner is as the script left it.
pub handle_filters-drop :
    (f : Function) (lua_ctx : ℕ) (bytes : Bytes) (flags : ℕ) (c : Container) (p q : Spawner)
    → handle_filters f lua_ctx bytes flags c p ≡ (false, q)
    → f p (packet_data_to_table (filter_packet bytes flags c p)) ≡ (returned (bool_value false), q)
unfolding handle_filters answer_of
handle_filters-drop f lua_ctx bytes flags c p q e =
    let r = f p (packet_data_to_table (filter_packet bytes flags c p)) in
    let (a, b) = answer_of-false r.0 lua_ctx r.1 q e in ground (arith, a, b)

-- l.GetGlobal never returns a nil of Go: a name that is not defined has the value nil of Lua.
abbrev pub AlwaysValues : Globals → Type 0
AlwaysValues globals = (name : String) → globals name ≢ none

of_run-never :
    (c : ℕ) (o : Option Spawner) (q : Spawner) → of_run c o ≢ returns (some no_callbacks) q
of_run-never c none q e = ground arith
of_run-never c (some p) q e = ground arith

watch_packets-never :
    (globals : Globals) (filter : Option ℕ) (c : ℕ) (es : List Event) (p q : Spawner)
    → AlwaysValues globals
    → watch_packets globals filter c es p ≢ returns (some no_callbacks) q
unfolding watch_packets
watch_packets-never globals filter c es p q a e =
    elim (Option-cases (as_function (globals "EzpOnPacket"))) [
      | inr (f, m) ↦ elim (Option-cases filter) [
        | inr (g, n) ↦ ground arith
        | inl n ↦ ground (arith, of_run-never c _ q)
      ]
      | inl m ↦ elim (Option-cases (globals "EzpFilter")) [
        | inl n ↦ a "EzpFilter" n
        | inr (v, n) ↦ ground (arith, of_run-never c _ q)
      ]
    ]

try_set-error :
    (cb : Option ℕ) (c : ℕ) (p : Spawner) (x : Error)
    → (try_set_filter_callback cb c p).0 ≡ some x
    → x ≡ callback_exists
unfolding try_set_filter_callback
try_set-error cb c p x e = ground arith

install_filter-never :
    (globals : Globals) (cb c : ℕ) (es : List Event) (p q : Spawner)
    → AlwaysValues globals
    → install_filter globals cb c es p ≢ returns (some no_callbacks) q
unfolding install_filter
install_filter-never globals cb c es p q a e =
    elim (Option-cases (as_function (globals "EzpFilter"))) [
      | inl m ↦
          let e' : watch_packets globals none c es p ≡ returns (some no_callbacks) q =
            ground arith in
          watch_packets-never globals none c es p q a e'
      | inr (f, m) ↦
          let r = try_set_filter_callback (some cb) c p in
          elim (Option-cases r.0) [
            | inr (x, n) ↦ ground (arith, try_set-error (some cb) c p x n)
            | inl n ↦
                let e' : watch_packets globals (some f) c es r.1 ≡ returns (some no_callbacks) q =
                  ground arith in
                watch_packets-never globals (some f) c es r.1 q a e'
          ]
    ]

-- No script is told that it has no callbacks: that error of runLuaCallback is never returned, if
-- GetGlobal never returns a nil of Go.
pub run_lua_callback-never :
    (globals : Globals) (cb ctx : ℕ) (es : List Event) (p q : Spawner)
    → AlwaysValues globals
    → run_lua_callback globals cb ctx es p ≢ returns (some no_callbacks) q
unfolding run_lua_callback
run_lua_callback-never globals cb ctx es p q a e = install_filter-never globals cb _ es _ q a e

install_filter-both :
    (globals : Globals) (cb c f g : ℕ) (es : List Event) (p : Spawner)
    → as_function (globals "EzpFilter") ≡ some f
    → as_function (globals "EzpOnPacket") ≡ some g
    → p.callback_ctx ≡ none
    → install_filter globals cb c es p ≡ leave c (some both_callbacks) (set_filter (some cb) c p)
unfolding install_filter watch_packets try_set_filter_callback
install_filter-both globals cb c f g es p m n bare = ground arith

newborn-live :
    (s : Contexts) (c : ℕ)
    → is_done s c ≡ false
    → cause_of (with_cancel s c).0 (with_cancel s c).1 ≡ none
unfolding is_done with_cancel cause_of
newborn-live s c live = ground arith

-- A script that defines both callbacks, under a live context of a spawner without a filter whose
-- contexts form a tree, is refused, and the filter that was installed for it on the way is dead when
-- runLuaCallback returns.
pub run_lua_callback_both :
    (globals : Globals) (cb ctx f g : ℕ) (es : List Event) (p : Spawner)
    → as_function (globals "EzpFilter") ≡ some f
    → as_function (globals "EzpOnPacket") ≡ some g
    → IsTree p.contexts
    → ctx < length p.contexts
    → is_done p.contexts ctx ≡ false
    → p.callback_ctx ≡ none
    → (q : Spawner) × (own : ℕ) × (run_lua_callback globals cb ctx es p
        ≡ returns (some both_callbacks) q)
      × (q.callback_ctx ≡ some own)
      × (is_done q.contexts own ≡ true)
unfolding run_lua_callback set_filter
run_lua_callback_both globals cb ctx f g es p m n t l live bare =
    let s = (with_cancel p.contexts ctx).0 in
    let c = (with_cancel p.contexts ctx).1 in
    let installed : Spawner = set_filter (some cb) c (record p { contexts = s }) in
    let dies =
      child-cancelled s c canceled (with_cancel-IsTree p.contexts ctx t l)
        (unfold with_cancel in omega arith) (newborn-live p.contexts ctx live) in
    (
      lua_cancel c installed,
      (with_cancel s c).1,
      install_filter-both globals cb c f g es (record p { contexts = s }) m n bare,
      unfold set_filter in refl,
      unfold is_done in ap is_some dies,
    )
