-- ===== src/Integration.antt =====
-- The integration test: integration/tcp_integration.go and integration/util.go.
pub mod Laws
pub mod Threads
use text.Mathlib.Text.{◌==◌ as str_eq}
use ezproxy.Base.{
  ℕ, Bool, true, false, ◌&&◌, ◌==◌, Option, none, some, List, [], ◌∷◌, if◌then◌else◌, length, ◌>>=◌,
}
use ezproxy.Errors.{
  Error, canceled, listener_late, too_little_sent, echo_differs, testing_completed, Result, ok, err,
}
use ezproxy.Context.{Contexts, with_cancel, cancel}
use ezproxy.Handler.State.{Bytes, Addr, Spawner}
use ezproxy.Handler.Listener.{Listener}
use ezproxy.Handler.Lifecycle.{
  new_proxy_spawner, set_error_callback, try_set_filter_callback, begin_close, end_close,
}
use ezproxy.Proxy.Net.{NetError}
use ezproxy.Proxy.Tcp.{Read, got, unread}

-- isTimeoutError
unfoldable pub is_timeout_error : NetError → Option Error → Bool
is_timeout_error net none = false
is_timeout_error net (some e) = elim (net e) [ none ↦ false | some b ↦ b ]

-- compareNetAddr
unfoldable pub compare_net_addr : Addr → Addr → Bool
compare_net_addr left right = str_eq left.network right.network && str_eq left.address right.address

-- addrToTcpAddr; `is_tcp` says which addresses are of type *net.TCPAddr.
unfoldable pub addr_to_tcp_addr : (Addr → Bool) → (Addr → Result Addr) → Addr → Result Addr
addr_to_tcp_addr is_tcp resolve a = if is_tcp a then ok a else resolve a

-- One turn of tcpEchoConn: whether the context is over by then, what is read, and how the write goes.
pub record EchoTurn : Type 0 where
  pub over : Bool
  pub read : Read
  pub write : Option Error

-- How a loop of the test has ended so far.
pub data Stopped : Type 0 where
  waits ended : Stopped
  broken : Error → Stopped

-- What one turn of tcpEchoConn does.
pub data EchoNext : Type 0 where
  stop : Stopped → EchoNext
  skip : EchoNext
  echo : Bytes → EchoNext

-- What could not be written ends the loop after the write.
unfoldable pub echo_turn : NetError → EchoTurn → EchoNext
unfolding is_timeout_error
echo_turn net t = if t.over then stop ended else elim t.read [
  | unread e ↦ if is_timeout_error net (some e) then skip else stop (broken e)
  | got bytes ↦ elim t.write [ none ↦ echo bytes | some e ↦ stop (broken e) ]
]

abbrev pub echo_on : EchoNext → List Bytes × Stopped → List Bytes × Stopped
echo_on (stop e) rest = ([], e)
echo_on skip rest = rest
echo_on (echo bytes) rest = (bytes ∷ rest.0, rest.1)

-- tcpEchoConn: what it has written back, and how it ended.
unfoldable pub tcp_echo_conn : NetError → List EchoTurn → List Bytes × Stopped
unfolding echo_turn
tcp_echo_conn net [] = ([], waits)
tcp_echo_conn net (t ∷ ts) = echo_on (echo_turn net t) (tcp_echo_conn net ts)

-- One turn of the loop of tcpEchoServer
pub record AcceptTurn : Type 0 where
  pub over : Bool
  pub accept : Result Addr

-- The loop of tcpEchoServer: the clients that it starts a tcpEchoConn for. No error of AcceptTCP ends
-- it.
unfoldable pub accept_loop : List AcceptTurn → List Addr × Stopped
accept_loop [] = ([], waits)
accept_loop (t ∷ ts) =
    let rest = accept_loop ts in
    if t.over
    then ([], ended)
    else elim t.accept [ err e ↦ rest | ok client ↦ (client ∷ rest.0, rest.1) ]

-- tcpEchoServer: whether it has told that it listens, its clients, how it ended, and the contexts.
unfoldable pub tcp_echo_server :
    (Addr → Result Addr)
    → Option Error
    → List AcceptTurn
    → Addr
    → ℕ
    → Contexts
    → Bool × List Addr × Stopped × Contexts
unfolding accept_loop
tcp_echo_server to_tcp listens ts server ctx s = elim (to_tcp server) [
  | err e ↦ (false, [], broken e, cancel s ctx e)
  | ok a ↦ elim listens [
    | some e ↦ (false, [], broken e, cancel s ctx e)
    | none ↦ let (clients, how) = accept_loop ts in (true, clients, how, s)
  ]
]

-- The select of TcpTestServer that waits for the echo server.
pub data Setup : Type 0 where
  over ready late : Setup

-- What the world answers TcpTestServer: how the wait for the echo server goes and the contexts after
-- it, what the listeners do before NewProxySpawner returns, how the dial, the write and the read go,
-- and what others do until the test closes the spawner and while Close waits.
pub record World : Type 0 where
  pub setup : Setup
  pub waited : Contexts → Contexts
  pub listening : Spawner → Spawner
  pub dial : Option Error
  pub write : Result ℕ
  pub read : Result Bytes
  pub meanwhile : Spawner → Spawner
  pub closing : Spawner → Spawner

-- How TcpTestServer goes: a panic, an error, or nil. What a failure leaves of the contexts, which it
-- cancels, is left out.
pub data Tested : Type 0 where
  panics : Tested
  fails : Error → Tested
  passes : Tested

abbrev pub equal_bytes : Bytes → Bytes → Bool
equal_bytes [] [] = true
equal_bytes (a ∷ l) (b ∷ m) = let rest = equal_bytes l m in a == b && rest
equal_bytes _ _ = false

-- "HELLO TCP"
abbrev pub echo_data : Bytes
echo_data = 72 ∷ 69 ∷ 76 ∷ 76 ∷ 79 ∷ 32 ∷ 84 ∷ 67 ∷ 80 ∷ []

-- The error that Close returns, if it returns one.
abbrev pub of_close : Option Error → Tested
of_close none = passes
of_close (some e) = fails e

-- The end of TcpTestServer: the context is cancelled and the spawner closed.
unfoldable pub close_spawner : World → ℕ → Spawner → Tested
close_spawner w c p =
    let q = w.meanwhile p in
    elim (begin_close (record q { contexts = cancel q.contexts c testing_completed })) [
      | none ↦ panics
      | some r ↦ of_close (end_close (w.closing r))
    ]

-- The dial, the write and the read of TcpTestServer
unfoldable pub exchange : World → ℕ → Spawner → Tested
unfolding close_spawner
exchange w c p = elim w.dial [
  | some e ↦ fails e
  | none ↦ elim w.write [
    | err e ↦ fails e
    | ok n ↦
        if n == length echo_data
        then elim w.read [
          | err e ↦ fails e
          | ok bytes ↦
              if equal_bytes bytes echo_data then close_spawner w c p else fails echo_differs
        ]
        else fails too_little_sent
  ]
]

-- From the making of the spawner on. The callbacks are named by the two numbers.
unfoldable pub with_spawner : World → Listener → ℕ → ℕ → Addr → Addr → ℕ → Contexts → Tested
unfolding exchange
with_spawner w tcp log filter server proxy c s =
    elim (new_proxy_spawner server proxy c s (tcp ∷ []) w.listening) [
      | err e ↦ fails e
      | ok p ↦
          let (r, q) = try_set_filter_callback (some filter) c (set_error_callback (some log) p) in
          elim r [ some e ↦ panics | none ↦ exchange w c q ]
    ]

-- TcpTestServer
unfoldable pub tcp_test_server :
    World → (Addr → Result Addr) → Listener → ℕ → ℕ → ℕ → Contexts → Addr → Addr → Tested
unfolding with_spawner
tcp_test_server w to_tcp tcp log filter ctx s server proxy = elim (to_tcp proxy) [
  | err e ↦ fails e
  | ok px ↦
      let (own, c) = with_cancel s ctx in
      elim w.setup [
        | over ↦ fails canceled
        | late ↦ fails listener_late
        | ready ↦ with_spawner w tcp log filter server proxy c (w.waited own)
      ]
]
