-- ===== src/Proxy/Tcp.antt =====
-- TCP, proxy/tcp.go: a TcpProxy reads from both its connections; the listener accepts clients and dials
-- the server for each.
pub mod Laws
pub mod Listener
use ezproxy.Base.{ℕ, Bool, true, false, not, Option, none, some, List, [], ◌∷◌, if◌then◌else◌}
use ezproxy.Errors.{
  Error, already_initialized, end_of_file, proxy_retry, formatted, Result, ok, err,
}
use ezproxy.Handler.State.{Bytes, Addr, Proxy}
use ezproxy.Handler.Container.{PacketData}
use ezproxy.Proxy.Net.{
  NetError, is_timeout_error, compare_net_addr, Ending, waits, ended, cancelled,
}

-- TcpProxy, its connections by their remote addresses; `initialized` says that pktChan is set.
pub record TcpProxy : Type 0 where
  pub client : Addr
  pub server : Addr
  pub initialized : Bool
  pub ctx : Option ℕ

-- newTcpProxy
unfoldable pub new_tcp_proxy : Addr → Addr → TcpProxy
new_tcp_proxy client server = record {
  client = client;
  server = server;
  initialized = false;
  ctx = none;
}

-- Network and GetClientAddr, as package handler sees them
unfoldable pub tcp_proxy : TcpProxy → Proxy
tcp_proxy t = record { network = "tcp"; client_addr = t.client }

-- Init, up to the start of its two goroutines
unfoldable pub init : ℕ → TcpProxy → Result TcpProxy
init ctx t =
    if t.initialized
    then err already_initialized
    else ok (record t { initialized = true; ctx = some ctx })

-- c.Read(buffer)
pub data Read : Type 0 where
  got : Bytes → Read
  unread : Error → Read

-- One turn of a loop: whether the context is over by then, and what is read.
pub record Turn : Type 0 where
  pub over : Bool
  pub read : Read

-- The packet that listen makes of what it reads from the connection with that remote address.
unfoldable pub packet_from : TcpProxy → Addr → Bytes → PacketData
unfolding compare_net_addr
packet_from t c bytes =
    if compare_net_addr c t.server
    then record { serverbound = false; source = t.server; dest = t.client; content = bytes }
    else record { serverbound = true; source = t.client; dest = t.server; content = bytes }

-- err == io.EOF
abbrev pub is_end_of_file : Error → Bool
is_end_of_file end_of_file = true
is_end_of_file _ = false

-- What listen cancels its context with after a read that failed.
unfoldable pub cause_of_failure : Error → Error
cause_of_failure e = if is_end_of_file e then proxy_retry else formatted e

-- What one turn does.
pub data Next : Type 0 where
  stop : Ending → Next
  skip : Next
  pass : Bytes → Next

unfoldable pub turn_of : NetError → Turn → Next
unfolding is_timeout_error cause_of_failure
turn_of net t = if t.over then stop ended else elim t.read [
  | unread e ↦ if is_timeout_error net (some e) then skip else stop (cancelled (cause_of_failure e))
  | got bytes ↦ pass bytes
]

abbrev pub continue_with :
    TcpProxy → Addr → Next → List PacketData × Ending → List PacketData × Ending
continue_with t c (stop e) rest = ([], e)
continue_with t c skip rest = rest
continue_with t c (pass bytes) rest = (packet_from t c bytes ∷ rest.0, rest.1)

-- listen: the packets that it passes on, and how it ended.
unfoldable pub listen : NetError → TcpProxy → Addr → List Turn → List PacketData × Ending
unfolding turn_of packet_from
listen net t c [] = ([], waits)
listen net t c (u ∷ us) = continue_with t c (turn_of net u) (listen net t c us)

-- SendToClient and SendToServer: the write to the connection with that remote address.
abbrev pub Write : Type 0
Write = Bytes → Addr → Option Error

-- The write that a send makes, with its address, and the error that it returns.
abbrev pub Wrote : Type 0
Wrote = (Addr × Bytes) × Option Error

unfoldable pub send_to_client : Write → TcpProxy → Bytes → Wrote
send_to_client write t bytes = ((t.client, bytes), write bytes t.client)

unfoldable pub send_to_server : Write → TcpProxy → Bytes → Wrote
send_to_server write t bytes = ((t.server, bytes), write bytes t.server)

-- The two sends as a container calls them: to the server (true) or to the client.
unfoldable pub tcp_send : Write → TcpProxy → Bool → Bytes → Wrote
unfolding send_to_client send_to_server
tcp_send write t true bytes = send_to_server write t bytes
tcp_send write t false bytes = send_to_client write t bytes
