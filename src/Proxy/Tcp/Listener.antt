-- ===== src/Proxy/Tcp/Listener.antt =====
-- TcpListener, proxy/tcp.go.
pub mod Laws
use ezproxy.Base.{ℕ, Bool, true, false, Option, none, some, List, [], ◌∷◌, if◌then◌else◌}
use ezproxy.Errors.{Error, formatted, Result, ok, err}
use ezproxy.Context.{is_done, cancel}
use ezproxy.Handler.State.{Addr, Env, Spawner}
use ezproxy.Handler.Container.{new_proxy_container}
use ezproxy.Handler.Connections.{add_connection}
use ezproxy.Proxy.Net.{NetError, is_timeout_error, Meanwhile}
use ezproxy.Proxy.Tcp.{new_tcp_proxy, tcp_proxy}

-- cancel(fmt.Errorf(…, err)) of the listener's context
unfoldable pub fail : ℕ → Error → Spawner → Spawner
fail ctx e p = record p { contexts = cancel p.contexts ctx (formatted e) }

-- One turn of the loop: what others do before it and while AcceptTCP blocks, what AcceptTCP gives, and
-- how DialTCP goes if it is called.
pub record Turn : Type 0 where
  pub before : Meanwhile
  pub during : Meanwhile
  pub accept : Result Addr
  pub dial : Result Addr

-- What one turn leads to: the end, or the next turn.
pub data Next : Type 0 where
  stop : Spawner → Next
  go : Spawner → Next

-- A client is accepted, under a live context.
unfoldable pub connect : Env → ℕ → Addr → Result Addr → Spawner → Next
unfolding fail tcp_proxy new_tcp_proxy
connect env ctx client (err e) p = go (fail ctx e p)
connect env ctx client (ok server) p =
    go (add_connection (new_proxy_container env) (tcp_proxy (new_tcp_proxy client server)) p).1

unfoldable pub turn_of : NetError → Env → ℕ → Turn → Spawner → Next
unfolding is_timeout_error connect fail
turn_of net env ctx t p =
    let q = t.during p in
    elim t.accept [
      | err e ↦ if is_timeout_error net (some e) then go q else go (fail ctx e q)
      | ok client ↦ if is_done q.contexts ctx then stop q else connect env ctx client t.dial q
    ]

-- The loop over its turns: none while it still runs.
unfoldable pub loop : NetError → Env → ℕ → List Turn → Spawner → Option Spawner
unfolding turn_of
loop net env ctx [] p = none
loop net env ctx (t ∷ ts) p =
    let q = t.before p in
    elim (is_done q.contexts ctx) [
      | true ↦ some q
      | false ↦ elim (turn_of net env ctx t q) [ stop r ↦ some r | go r ↦ loop net env ctx ts r ]
    ]

-- net.ResolveTCPAddr
abbrev pub Resolve : Type 0
Resolve = Addr → Result Addr

-- TcpListener; `listens` is how ListenTCP goes.
unfoldable pub tcp_listener :
    NetError → Env → Resolve → Option Error → List Turn → ℕ → Spawner → Option Spawner
unfolding loop fail
tcp_listener net env resolve listens ts ctx p = elim (resolve p.proxy_addr) [
  | err e ↦ some (fail ctx e p)
  | ok proxy ↦ elim (resolve p.server_addr) [
    | err e ↦ some (fail ctx e p)
    | ok server ↦ elim listens [ some e ↦ some (fail ctx e p) | none ↦ loop net env ctx ts p ]
  ]
]
