-- ===== src/Proxy/Udp.antt =====
-- UDP, proxy/udp.go: a UdpProxy passes datagrams between one client and the server; the listener hands
-- the socket to one client at a time.
pub mod Laws
pub mod Listener
use ezproxy.Base.{ℕ, Bool, true, false, Option, none, some, List, [], ◌∷◌, if◌then◌else◌}
use ezproxy.Errors.{Error, already_initialized, Result, ok, err}
use ezproxy.Handler.State.{Bytes, Addr, Proxy}
use ezproxy.Handler.Container.{PacketData}
use ezproxy.Proxy.Net.{
  NetError, is_timeout_error, compare_net_addr, Datagram, arrived, unread, Ending, waits, ended,
  cancelled,
}

-- UdpProxy; `initialized` says that pktChan is set, and `ctx` is its context from then on.
pub record UdpProxy : Type 0 where
  pub client : Addr
  pub server : Addr
  pub first_pkt_data : Bytes
  pub initialized : Bool
  pub ctx : Option ℕ

-- newUdpProxy
unfoldable pub new_udp_proxy : Addr → Addr → Bytes → UdpProxy
new_udp_proxy client server first_pkt = record {
  client = client;
  server = server;
  first_pkt_data = first_pkt;
  initialized = false;
  ctx = none;
}

-- Network and GetClientAddr, as package handler sees them
unfoldable pub udp_proxy : UdpProxy → Proxy
udp_proxy u = record { network = "udp"; client_addr = u.client }

-- Init, up to the start of its goroutine
unfoldable pub init : ℕ → UdpProxy → Result UdpProxy
init ctx u =
    if u.initialized
    then err already_initialized
    else ok (record u { initialized = true; ctx = some ctx })

-- The packet that listen sends first
unfoldable pub first_packet : UdpProxy → PacketData
first_packet u = record {
  serverbound = true;
  source = u.client;
  dest = u.server;
  content = u.first_pkt_data;
}

-- A datagram as the packet that listen makes of it; none for an unknown sender.
unfoldable pub route : UdpProxy → Addr → Bytes → Option PacketData
unfolding compare_net_addr
route u from bytes =
    if compare_net_addr from u.client
    then some (record { serverbound = true; source = from; dest = u.server; content = bytes })
    else if compare_net_addr from u.server
    then some (record { serverbound = false; source = from; dest = u.client; content = bytes })
    else none

-- One turn of a loop: whether the context is over by then, and what is read.
pub record Turn : Type 0 where
  pub over : Bool
  pub read : Datagram

-- What one turn does.
pub data Next : Type 0 where
  stop : Ending → Next
  skip : Next
  pass : PacketData → Next

unfoldable pub turn_of : NetError → UdpProxy → Turn → Next
unfolding is_timeout_error route
turn_of net u t = if t.over then stop ended else elim t.read [
  | unread e ↦ if is_timeout_error net (some e) then skip else stop (cancelled e)
  | arrived bytes from ↦ elim (route u from bytes) [ none ↦ skip | some d ↦ pass d ]
]

abbrev pub continue_with : Next → List PacketData × Ending → List PacketData × Ending
continue_with (stop e) rest = ([], e)
continue_with skip rest = rest
continue_with (pass d) rest = (d ∷ rest.0, rest.1)

-- The loop of listen: the packets that it passes on, and how it ended.
unfoldable pub read_loop : NetError → UdpProxy → List Turn → List PacketData × Ending
unfolding turn_of
read_loop net u [] = ([], waits)
read_loop net u (t ∷ ts) = continue_with (turn_of net u t) (read_loop net u ts)

-- listen
unfoldable pub listen : NetError → UdpProxy → List Turn → List PacketData × Ending
unfolding read_loop first_packet
listen net u ts = let r = read_loop net u ts in (first_packet u ∷ r.0, r.1)

-- SendToClient and SendToServer: the write to the socket, which goes to the address.
abbrev pub Write : Type 0
Write = Bytes → Addr → Option Error

-- The write that a send makes, with its address, and the error that it returns.
abbrev pub Wrote : Type 0
Wrote = (Addr × Bytes) × Option Error

unfoldable pub send_to_client : Write → UdpProxy → Bytes → Wrote
send_to_client write u bytes = ((u.client, bytes), write bytes u.client)

unfoldable pub send_to_server : Write → UdpProxy → Bytes → Wrote
send_to_server write u bytes = ((u.server, bytes), write bytes u.server)

-- The two sends as a container calls them: to the server (true) or to the client.
unfoldable pub udp_send : Write → UdpProxy → Bool → Bytes → Wrote
unfolding send_to_client send_to_server
udp_send write u true bytes = send_to_server write u bytes
udp_send write u false bytes = send_to_client write u bytes
