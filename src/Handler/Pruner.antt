-- ===== src/Handler/Pruner.antt =====
-- ProxySpawner.pruner, handler/spawner.go: once a second it takes the dead connections out of the
-- table and the dead receivers out of p.rcChan.
pub mod Removal
pub mod Channels
pub mod Laws
use ezproxy.Base.{
  ℕ, ◌+◌, ◌-◌, Bool, true, false, Option, none, some, List, [], ◌∷◌, ◌==◌, ltb, if◌then◌else◌,
  length, set, ◌>>=◌,
}
use ezproxy.Context.{Contexts, is_done}
use ezproxy.Handler.State.{RecvChan, Spawner}
use ezproxy.Handler.Container.{is_alive}
use ezproxy.Handler.Listener.{wg_done}

-- deleteKeys of the first loop
unfoldable pub dead_keys : Spawner → List (ℕ × ℕ) → List ℕ
dead_keys p [] = []
dead_keys p ((k, h) ∷ m) = if is_alive p h then dead_keys p m else k ∷ dead_keys p m

-- delete(p.connections, v); the id of a connection is its key.
unfoldable pub delete : ℕ → List (ℕ × ℕ) → List (ℕ × ℕ)
delete k [] = []
delete k ((j, h) ∷ m) = if j == k then m else (j, h) ∷ delete k m

-- for _, v := range deleteKeys { delete(p.connections, v); p.wg.Done() }
unfoldable pub delete_each : List ℕ → Spawner → Option Spawner
unfolding delete wg_done
delete_each [] p = some p
delete_each (k ∷ ks) p =
    wg_done (record p { connections = delete k p.connections }) >>= delete_each ks

unfoldable pub prune_connections : Spawner → Option Spawner
unfolding dead_keys delete_each
prune_connections p = delete_each (dead_keys p p.connections) p

-- deleteKeys of the second loop
unfoldable pub dead_indices : Contexts → ℕ → List RecvChan → List ℕ
dead_indices s i [] = []
dead_indices s i (v ∷ vs) =
    if is_done s v.ctx then i ∷ dead_indices s (i + 1) vs else dead_indices s (i + 1) vs

module _ {ℓ} {A : Type ℓ} where
  -- vs[len(vs)-1]
  unfoldable pub last : List A → Option A
  last [] = none
  last (v ∷ []) = some v
  last (v ∷ w ∷ vs) = last (w ∷ vs)

  -- vs[:len(vs)-1]
  unfoldable pub drop_last : List A → List A
  drop_last [] = []
  drop_last (v ∷ []) = []
  drop_last (v ∷ w ∷ vs) = v ∷ drop_last (w ∷ vs)

  -- vs[i] = vs[len(vs)-1]; vs = vs[:len(vs)-1]. An index out of range panics.
  unfoldable pub swap_remove : ℕ → List A → Option (List A)
  unfolding last drop_last
  swap_remove i vs =
      if ltb i (length vs) then (last vs >>= λ v. some (drop_last (set vs i v))) else none

  unfoldable pub remove_each : List ℕ → List A → Option (List A)
  unfolding swap_remove
  remove_each [] vs = some vs
  remove_each (i ∷ is) vs = swap_remove i vs >>= remove_each is

unfoldable pub prune_channels : Spawner → Option Spawner
unfolding dead_indices remove_each
prune_channels p = remove_each (dead_indices p.contexts 0 p.rc_chan) p.rc_chan >>= λ vs.
    some (record p { rc_chan = vs })

-- case <-ticker.C
unfoldable pub prune : Spawner → Option Spawner
unfolding prune_connections prune_channels
prune p = prune_connections p >>= prune_channels

-- The pruner's p.wg.Add(1). It returns without a p.wg.Done().
unfoldable pub start_pruner : Spawner → Spawner
start_pruner p = record p { wg = p.wg + 1 }
