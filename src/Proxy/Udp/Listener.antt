-- ===== src/Proxy/Udp/Listener.antt =====
-- UdpListener, proxy/udp.go. It reads the socket itself while no connection of its own is alive, and
-- leaves it to that connection otherwise.
pub mod Laws
use ezproxy.Base.{ℕ, Bool, true, false, Option, none, some, List, [], ◌∷◌, if◌then◌else◌}
use ezproxy.Errors.{Error, formatted, Result, ok, err}
use ezproxy.Context.{is_done, cancel}
use ezproxy.Handler.State.{Addr, Env, Spawner}
use ezproxy.Handler.Invariant.{id_at}
use ezproxy.Handler.Container.{is_alive, new_proxy_container}
use ezproxy.Handler.Connections.{add_connection, get_proxy}
use ezproxy.Proxy.Net.{compare_net_addr, Datagram, arrived, unread, Meanwhile}
use ezproxy.Proxy.Udp.{new_udp_proxy, udp_proxy}

-- cancel(fmt.Errorf(…, err)) of the listener's context
unfoldable pub fail : ℕ → Error → Spawner → Spawner
fail ctx e p = record p { contexts = cancel p.contexts ctx (formatted e) }

-- One turn of the loop: what others do before it, how ListenUDP goes if it is called, and what is read
-- if the socket is.
pub record Turn : Type 0 where
  pub meanwhile : Meanwhile
  pub relisten : Option Error
  pub read : Datagram

-- What one turn leads to: the end, or the next turn with the id of the connection, if there is one.
pub data Next : Type 0 where
  stop : Spawner → Next
  go : Option ℕ → Spawner → Next

-- GetProxy finds the connection, and it is alive.
unfoldable pub is_current : ℕ → Spawner → Bool
is_current id p = elim (get_proxy id p) [ err e ↦ false | ok h ↦ is_alive p h ]

-- id = pc.GetId(), if AddConnection gave a container.
unfoldable pub added : Result ℕ × Spawner → Next
added (ok h, p) = go (id_at p.containers h) p
added (err e, p) = go none p

-- The rest of a turn that reads the socket. A read that fails is no more than a timeout.
unfoldable pub receive : Env → Addr → Datagram → Spawner → Next
unfolding compare_net_addr added udp_proxy new_udp_proxy
receive env server (unread e) p = go none p
receive env server (arrived bytes from) p =
    if compare_net_addr server from
    then go none p
    else added
        (add_connection (new_proxy_container env) (udp_proxy (new_udp_proxy from server bytes)) p)

unfoldable pub turn_of : Env → Addr → ℕ → Turn → Option ℕ → Spawner → Next
unfolding is_current receive fail
turn_of env server ctx t none p = receive env server t.read p
turn_of env server ctx t (some id) p =
    if is_current id p
    then go (some id) p
    else elim t.relisten [ some e ↦ stop (fail ctx e p) | none ↦ receive env server t.read p ]

-- The loop over its turns: none while it still runs.
unfoldable pub loop : Env → Addr → ℕ → List Turn → Option ℕ → Spawner → Option Spawner
unfolding turn_of
loop env server ctx [] id p = none
loop env server ctx (t ∷ ts) id p =
    let q = t.meanwhile p in
    elim (is_done q.contexts ctx) [
      | true ↦ some q
      | false ↦ elim (turn_of env server ctx t id q) [
        | stop r ↦ some r
        | go id' r ↦ loop env server ctx ts id' r
      ]
    ]

-- net.ResolveUDPAddr
abbrev pub Resolve : Type 0
Resolve = Addr → Result Addr

-- UdpListener; `listens` is how the first ListenUDP goes.
unfoldable pub udp_listener :
    Env → Resolve → Option Error → List Turn → ℕ → Spawner → Option Spawner
unfolding loop fail
udp_listener env resolve listens ts ctx p = elim (resolve p.proxy_addr) [
  | err e ↦ some (fail ctx e p)
  | ok proxy ↦ elim (resolve p.server_addr) [
    | err e ↦ some (fail ctx e p)
    | ok server ↦ elim listens [
      | some e ↦ some (fail ctx e p)
      | none ↦ loop env server ctx ts none p
    ]
  ]
]
