-- ===== src/Tests/Echo.antt =====
-- The integration test in a perfect world: integration/tcp_integration.go.
use ezproxy.Base.{arith, ◌≢◌, none, [], ◌∷◌}
use ezproxy.Errors.{ok}
use ezproxy.Context.{cause_of, Contexts, with_cancel}
use ezproxy.Handler.Listener.{Listener}
use ezproxy.Handler.Pruner.{start_pruner}
use ezproxy.Handler.Process.{here}
use ezproxy.Integration.{World, ready, passes, echo_data, tcp_test_server}
use ezproxy.Integration.Laws.{IsHonest, Prunes, tcp_test_server-fails}
use ezproxy.Tests.Data.{server, local}

abbrev only_root : Contexts
only_root = record { parent = none; cause = none } ∷ []

-- The server listens at once, everything is written, and what is read is what was sent.
abbrev perfect : World
perfect = record {
  setup = ready;
  waited = λ s. s;
  listening = λ p. p;
  dial = none;
  write = ok 9;
  read = ok echo_data;
  meanwhile = start_pruner;
  closing = λ p. p;
}

abbrev silent : Listener
silent ctx p = p

-- The pruner starts, and nothing else happens.
perfect-Prunes : Prunes perfect.meanwhile
perfect-Prunes n p = (n, here)

alone-IsHonest : IsHonest (λ p. p)
alone-IsHonest n p = (n, here)

tcp_test_server-fails_example :
    tcp_test_server perfect (λ a. ok a) silent 3 4 0 only_root server local ≢ passes
unfolding with_cancel cause_of
tcp_test_server-fails_example =
    tcp_test_server-fails perfect (λ a. ok a) silent 3 4 0 only_root server local alone-IsHonest
      perfect-Prunes alone-IsHonest (ground arith) (omega arith)
