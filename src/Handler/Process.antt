-- ===== src/Handler/Process.antt =====
-- A running spawner: the calls and goroutines of package handler as steps in any order. `listeners`
-- counts the goroutines of addListener that have not returned.
pub mod Laws
pub mod Runs
pub mod Relay
pub mod Start
use ezproxy.Base.{ℕ, suc, ◌+◌, ◌<◌, ◌≡◌, Bool, Option, none, some, List, length, get_elem?}
use ezproxy.Base.Maps.{lookup}
use ezproxy.Errors.{Error}
use ezproxy.Context.{with_cancel, cancel}
use ezproxy.Handler.State.{Bytes, word, Proxy, Env, Spawner}
use ezproxy.Handler.Container.{PacketData, new_proxy_container, send_to, handle_packet}
use ezproxy.Handler.Connections.{add_connection}
use ezproxy.Handler.Listener.{wg_done}
use ezproxy.Handler.Pruner.{prune_connections, prune_channels, start_pruner}
use ezproxy.Handler.Lifecycle.{
  try_set_filter_callback, set_error_callback, get_recv_chan, begin_close,
}

pub record Process : Type 0 where
  pub spawner : Spawner
  pub listeners : ℕ

-- One step, with what the environment answers in it. A step that panics is none.
pub data Step (t u : Process) : Type 0 where
  adds :
      (env : Env) (px : Proxy)
      → t.spawner.current_id + 1 < word
      → u ≡ record t { spawner = (add_connection (new_proxy_container env) px t.spawner).1 }
      → Step t u
  receives :
      (env : Env) (d : PacketData) (h : ℕ) (p : Spawner)
      → h < length t.spawner.containers
      → handle_packet env d h t.spawner ≡ some p
      → u ≡ record t { spawner = p }
      → Step t u
  injects :
      (env : Env) (serverbound : Bool) (bytes : Bytes) (h : ℕ) (p : Spawner) (r : Option Error)
      → h < length t.spawner.containers
      → send_to serverbound env bytes h t.spawner ≡ some (r, p)
      → u ≡ record t { spawner = p }
      → Step t u
  cancels :
      (c : ℕ) (e : Error)
      → u ≡ record t { spawner = record t.spawner { contexts = cancel t.spawner.contexts c e } }
      → Step t u
  derives :
      (c : ℕ)
      → c < length t.spawner.contexts
      → u ≡ record t {
        spawner = record t.spawner { contexts = (with_cancel t.spawner.contexts c).0 };
      }
      → Step t u
  prunes_connections :
      (p : Spawner) → prune_connections t.spawner ≡ some p → u ≡ record t { spawner = p } → Step t u
  prunes_channels :
      (p : Spawner) → prune_channels t.spawner ≡ some p → u ≡ record t { spawner = p } → Step t u
  filters :
      (cb : Option ℕ) (c : ℕ)
      → c < length t.spawner.contexts
      → u ≡ record t { spawner = (try_set_filter_callback cb c t.spawner).1 }
      → Step t u
  watches :
      (c : ℕ)
      → c < length t.spawner.contexts
      → u ≡ record t { spawner = (get_recv_chan c t.spawner).1 }
      → Step t u
  handles_errors :
      (cb : Option ℕ) → u ≡ record t { spawner = set_error_callback cb t.spawner } → Step t u
  closes : (p : Spawner) → begin_close t.spawner ≡ some p → u ≡ record t { spawner = p } → Step t u
  -- The goroutine of the pruner adds itself to the wait group.
  starts_pruner : u ≡ record t { spawner = start_pruner t.spawner } → Step t u
  starts_listener :
      u ≡ record {
        spawner = record t.spawner { wg = t.spawner.wg + 1 };
        listeners = t.listeners + 1;
      }
      → Step t u
  ends_listener :
      (n : ℕ) (p : Spawner)
      → t.listeners ≡ suc n
      → wg_done t.spawner ≡ some p
      → u ≡ record { spawner = p; listeners = n }
      → Step t u

pub data Reach (t : Process) : Process → Type 0 where
  here : Reach t t
  next : {u v : Process} → Reach t u → Step u v → Reach t v
