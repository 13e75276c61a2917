-- ===== src/Tests/Sockets.antt =====
-- A UDP proxy and its listener at concrete reads: proxy/udp.go.
use Prim.Native.String.{String}
use text.Mathlib.Text.{◌==◌ as str_eq}
use ezproxy.Base.{
  arith, Bool, true, false, none, some, List, Option, ap, ◌==◌, if◌then◌else◌, ◌∷◌, [],
}
use ezproxy.Errors.{external}
use ezproxy.Handler.State.{Addr}
use ezproxy.Proxy.Net.{NetError, arrived, unread}
use ezproxy.Proxy.Udp.{UdpProxy, new_udp_proxy, Turn}
use ezproxy.Proxy.Udp.Listener.{turn_of}
use ezproxy.Proxy.Udp.Listener.Laws.{IsSoleNext, turn_of-IsSole}
use ezproxy.Tests.Data.{busy, busy-IsValid, lenient}

-- Error 0 is a timeout, and no other error is a net.Error.
abbrev pub patient : NetError
patient (external n) = if n == 0 then some true else none
patient _ = none

abbrev pub player : Addr
player = record { network = "udp"; address = "127.0.0.1:6000" }

abbrev pub game : Addr
game = record { network = "udp"; address = "10.0.0.1:80" }

abbrev stranger : Addr
stranger = record { network = "udp"; address = "127.0.0.1:7000" }

abbrev pub match : UdpProxy
match = new_udp_proxy player game (1 ∷ [])

abbrev pub reads : List Turn
reads =
    record { over = false; read = unread (external 0) }
    ∷ record { over = false; read = arrived (2 ∷ []) game }
    ∷ record { over = false; read = arrived (3 ∷ []) stranger }
    ∷ record { over = false; read = arrived (4 ∷ []) player }
    ∷ record { over = true; read = arrived (5 ∷ []) player }
    ∷ []

abbrev is_tcp : Option String → Bool
is_tcp none = false
is_tcp (some n) = str_eq n "tcp"

turn_of-IsSole_example : IsSoleNext (
    turn_of lenient game 4
      (record { meanwhile = λ p. p; relisten = none; read = arrived (1 ∷ []) player })
      none
      busy)
turn_of-IsSole_example =
    turn_of-IsSole lenient game 4
      (record { meanwhile = λ p. p; relisten = none; read = arrived (1 ∷ []) player }) none busy
      busy-IsValid (omega arith) ((λ l n. absurd (cc (ap is_tcp n))), tt)
