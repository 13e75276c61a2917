-- ===== src/Program/Main/Laws.antt =====
-- What the programs run: main_lua.go, main_no_lua.go and helpers.go.
use Prim.Native.String.{String}
use ezproxy.Base.{ℕ, ◌≡◌, some, List}
use ezproxy.Errors.{ok}
use ezproxy.Context.{Contexts}
use ezproxy.Handler.State.{Addr, Spawner}
use ezproxy.Handler.Listener.{Listener}
use ezproxy.Handler.Lifecycle.{new_proxy_spawner, set_error_callback}
use ezproxy.Handler.Process.{Process}

-- The spawner that the program runs, before its error callback is set.
abbrev IsMade : List Listener → (Spawner → Spawner) → ℕ → Contexts → ℕ → Spawner → Type 0
IsMade listeners meanwhile ctx s log p =
    (server : Addr) × (proxy : Addr) × (r : Spawner) × (new_proxy_spawner server proxy ctx s
        listeners meanwhile
      ≡ ok r)
    × (set_error_callback (some log) r ≡ p)
