-- ===== src/Tests/Starts.antt =====
-- The start of the program and of a WebSocket at concrete values: helpers.go and api/websocket.go.
use ezproxy.Base.{arith, refl, ◌≡◌, true, false, none, some, ◌∷◌, [], ◌==◌, if◌then◌else◌}
use ezproxy.Base.Maps.{lookup, insert}
use ezproxy.Context.{Contexts, with_cancel, cause_of}
use ezproxy.Handler.State.{Spawner}
use ezproxy.Handler.Listener.{Listener}
use ezproxy.Handler.Lifecycle.{fresh_spawner, new_proxy_spawner, set_error_callback}
use ezproxy.Api.Http.{Request}
use ezproxy.Api.WebSocket.{Query}
use ezproxy.Api.Session.{message, ended, new_web_socket, web_socket}
use ezproxy.Api.Session.Serves.{Serves, web_socket-Serves}
use ezproxy.Handler.Process.{here}
use ezproxy.Api.Perms.{auth_all}
use ezproxy.Api.Server.{WebApi}
use ezproxy.Api.WebSocket.Client.{handle_client_action}
use ezproxy.Config.{ConfigAddress, ConfigData}
use ezproxy.Program.{setup_spawner_and_api}
use ezproxy.Program.Laws.{setup-first_keys}
use ezproxy.Tests.Data.{strict, server, local, unfiltered, unfiltered-IsValid}

abbrev holder : Request
holder = record { method = "GET"; key = some (98 ∷ []); perms = none }

abbrev filterer : Query
filterer = record {
  wants_close = false;
  wants_inject = false;
  wants_filter = true;
  default_value = none;
}

-- A WebSocket that filters, and whose client sends what is no text before it goes.
web_socket-Serves_example : Serves 0 1 strict 5 unfiltered (
    web_socket strict none
      (((λ p. p), message none false) ∷ ((λ p. p), ended) ∷ [])
      (some ((11, 0x7f) ∷ []))
      holder
      filterer
      "tcp"
      8
      0
      unfiltered)
unfolding new_web_socket handle_client_action
web_socket-Serves_example =
    web_socket-Serves 0 1 strict none (((λ p. p), message none false) ∷ ((λ p. p), ended) ∷ [])
      (some ((11, 0x7f) ∷ [])) holder filterer "tcp" 8 0 unfiltered (λ l m P a. a)
      (record { valid = unfiltered-IsValid; awaited = omega arith }) (omega arith)
      (λ s p e. (here, here))

abbrev root : Contexts
root = record { parent = none; cause = none } ∷ []

abbrev own_address : ConfigAddress
own_address = record { address = "127.0.0.1"; port = 81 }

abbrev there : ConfigAddress
there = record { address = "10.0.0.1"; port = 80 }

abbrev debugged : ConfigData
debugged = record {
  proxy_address = own_address;
  server_address = there;
  api = record { enable = true; use_auth = true; address = own_address };
  logging = record { level = "debug" };
  lua = record { enable = false; path = ""; mode = "" };
  debugging = record { enable = true; api_key = 77 };
}

abbrev api : WebApi
api = record { auth = some ((77, auth_all) ∷ []); ctx = 9; wsocks = [] }

abbrev idle_listener : Listener
idle_listener ctx p = p

abbrev begun : Spawner
begun = set_error_callback (some 3) (fresh_spawner server local 0 root)

setup-first_keys_example : api.auth ≡ some ((77, auth_all) ∷ [])
unfolding setup_spawner_and_api new_proxy_spawner cause_of with_cancel lookup insert
setup-first_keys_example =
    setup-first_keys none (λ (a, n). if n == 80 then some server else some local) debugged
      (idle_listener ∷ []) (λ p. p) 3 9 0 root begun api refl
