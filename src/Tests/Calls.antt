-- ===== src/Tests/Calls.antt =====
-- The calls of the spawner's owner at a concrete spawner: handler/spawner.go.
use ezproxy.Base.{
  arith, ℕ, true, ◌≡◌, ◌≢◌, refl, false, none, some, ◌∷◌, [], ◌+◌, ◌-◌, Returns, get_elem?, All,
  length,
}
use ezproxy.Errors.{canceled, external, ok, err}
use ezproxy.Context.{cause_of, is_done, Contexts}
use ezproxy.Handler.State.{RecvChan, Spawner}
use ezproxy.Handler.Invariant.{IsValid}
use ezproxy.Handler.Container.{new_proxy_container}
use ezproxy.Handler.Connections.{add_connection, get_proxy}
use ezproxy.Handler.Connections.Laws.{add_connection_ok, add_connection_failed}
use ezproxy.Handler.Connections.Adding.{newcomer}
use ezproxy.Handler.Pruner.{prune_connections, prune_channels, dead_keys, dead_indices}
use ezproxy.Handler.Pruner.Laws.{alive_only, prune_connections_exact}
use ezproxy.Handler.Pruner.Channels.{prune_channels_live, prune_channels_panics}
use ezproxy.Handler.Lifecycle.{begin_close}
use ezproxy.Handler.Lifecycle.Closing.{IsClosing, begin_close-IsClosing, begin_close_twice}
use ezproxy.Tests.Data.{client, busy, busy-IsValid, lenient, broken, one_receiver}

add_connection_ok_example :
    let (r, q) = add_connection (new_proxy_container lenient) client busy in
    (r ≡ ok 1)
    × (get_proxy 1 q ≡ ok 1)
    × ((k : ℕ) → k ≢ 1 → get_proxy k q ≡ get_proxy k busy)
    × (get_elem? q.containers 1 ≡ some (newcomer client 1 busy))
    × (is_done q.contexts 5 ≡ false)
    × (q.current_id ≡ 2)
    × (q.wg ≡ 3)
    × IsValid q
unfolding is_done cause_of
add_connection_ok_example =
    add_connection_ok lenient client busy busy-IsValid refl refl (omega arith)

prune_connections_exact_example :
    prune_connections busy
    ≡ some (record busy {
      connections = alive_only busy busy.connections;
      wg = 2 - length (dead_keys busy busy.connections);
    })
prune_connections_exact_example = prune_connections_exact busy busy-IsValid

-- The contexts after the root is cancelled: all are dead.
abbrev dead_contexts : Contexts
dead_contexts =
    record { parent = some 0; cause = some canceled }
    ∷ record { parent = none; cause = some canceled }
    ∷ []

abbrev dead_receiver : RecvChan
dead_receiver = record { ctx = 1; closed = false }

abbrev one_dead : Spawner
one_dead = record busy { contexts = dead_contexts; rc_chan = dead_receiver ∷ [] }

abbrev two_dead : Spawner
two_dead = record busy { contexts = dead_contexts; rc_chan = dead_receiver ∷ dead_receiver ∷ [] }

prune_channels_live_example :
    All {A = RecvChan} (λ v. is_done dead_contexts v.ctx ≡ false) []
    × (0 + length (dead_indices dead_contexts 0 (dead_receiver ∷ [])) ≡ 1)
unfolding prune_channels is_done cause_of
prune_channels_live_example = prune_channels_live one_dead (record one_dead { rc_chan = [] }) refl

prune_channels_panics_example : prune_channels two_dead ≡ none
unfolding is_done cause_of
prune_channels_panics_example =
    prune_channels_panics two_dead (dead_receiver ∷ []) dead_receiver dead_receiver 0 refl refl refl
      refl

begin_close-IsClosing_example : Returns (begin_close busy) (IsClosing busy)
begin_close-IsClosing_example = begin_close-IsClosing busy busy-IsValid (refl, tt)

begin_close_twice_example : Returns (begin_close busy) (λ q. begin_close q ≡ none)
begin_close_twice_example = begin_close_twice busy busy-IsValid (refl, tt) one_receiver [] refl

add_connection_failed_example :
    let (r, q) = add_connection (new_proxy_container broken) client busy in
    (r ≡ err (external 1))
    × (q.connections ≡ busy.connections)
    × (q.current_id ≡ 1)
    × (q.wg ≡ 2)
    × (is_done q.contexts 5 ≡ true)
    × IsValid q
unfolding is_done cause_of
add_connection_failed_example =
    add_connection_failed broken client busy (external 1) busy-IsValid refl refl
