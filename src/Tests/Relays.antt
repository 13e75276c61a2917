-- ===== src/Tests/Relays.antt =====
-- Whole connections at concrete packets: handler/proxy.go and proxy/tcp.go.
use ezproxy.Base.{refl, Option, true, false, ◌==◌, none, List, [], ◌∷◌, arith, inl, inr, Returns}
use ezproxy.Context.{cause_of, is_done}
use ezproxy.Handler.Flags.{is_injected}
use ezproxy.Handler.State.{Addr, Bytes, Env, Spawner}
use ezproxy.Handler.Send.{handle_send, ask_filter, count_total, packet_of, deliver, offer}
use ezproxy.Handler.Container.{PacketData, write_out, count_sent, handle_packet}
use ezproxy.Handler.Process.{here}
use ezproxy.Handler.Process.Runs.{process}
use ezproxy.Handler.Process.Laws.{IsRunning}
use ezproxy.Handler.Process.Relay.{handle_packets, IsRelay, handle_packets-IsRelay}
use ezproxy.Proxy.Udp.{
  listen as udp_listen, read_loop, turn_of as udp_turn_of, first_packet, route, new_udp_proxy,
  udp_send, send_to_client as udp_to_client, send_to_server as udp_to_server,
}
use ezproxy.Proxy.Runs.Datagrams.{handle_packets-IsRouted}
use ezproxy.Tests.Sockets.{player, game, match, reads, patient}
use ezproxy.Proxy.Net.{is_timeout_error, compare_net_addr}
use ezproxy.Proxy.Tcp.{
  TcpProxy, new_tcp_proxy, Turn, got, turn_of, packet_from, listen, tcp_send,
  send_to_client as tcp_to_client, send_to_server as tcp_to_server,
}
use ezproxy.Proxy.Runs.Relay.{handle_packets-IsTransparent}
use ezproxy.Proxy.Runs.Sends.{through, Carries}
use ezproxy.Errors.{Error}
use ezproxy.Tests.Data.{server, client, busy, busy-IsValid, unfiltered, unfiltered-IsValid, strict}

abbrev request : PacketData
request = record {
  serverbound = true;
  source = client.client_addr;
  dest = server;
  content = 72 ∷ [];
}

abbrev reply : PacketData
reply = record {
  serverbound = false;
  source = server;
  dest = client.client_addr;
  content = 111 ∷ 107 ∷ [];
}

abbrev both_ways : List ((Spawner → Spawner) × PacketData)
both_ways = ((λ p. p), request) ∷ ((λ p. p), reply) ∷ []

-- A filter that lets only what goes to the server.
abbrev picky : Env
picky = record strict { answer = λ l cb bytes flags h. flags == 1 }

busy-IsRunning : IsRunning 1 (process 0 busy)
busy-IsRunning = record { valid = busy-IsValid; awaited = omega arith }

handle_packets-IsRelay_example :
    Returns
      (handle_packets picky 0 both_ways busy)
      (IsRelay 0 1 picky 0 (λ d. d.serverbound) (request ∷ reply ∷ []) busy)
unfolding cause_of is_done handle_packet handle_send ask_filter count_total packet_of offer deliver
    write_out count_sent is_injected
handle_packets-IsRelay_example =
    handle_packets-IsRelay 0 1 picky 0 (λ d. d.serverbound) both_ways busy busy-IsRunning
      (here, omega arith, refl, refl, (here, omega arith, refl, refl, tt))

abbrev spoken : TcpProxy
spoken = new_tcp_proxy client.client_addr server

abbrev asks : List Turn
asks = record { over = false; read = got (72 ∷ []) } ∷ []

abbrev answers : List Turn
answers = record { over = false; read = got (111 ∷ 107 ∷ []) } ∷ []

unfiltered-IsRunning : IsRunning 1 (process 0 unfiltered)
unfiltered-IsRunning = record { valid = unfiltered-IsValid; awaited = omega arith }

abbrev fine : Bytes → Addr → Option Error
fine bytes a = none

handle_packets-IsTransparent_example :
    Returns (handle_packets (through 0 (tcp_send fine spoken) strict) 0 both_ways unfiltered) (
      Carries 0 0
        (tcp_send fine spoken)
        client.client_addr
        server
        ((72 ∷ []) ∷ [])
        ((111 ∷ 107 ∷ []) ∷ [])
        unfiltered)
unfolding cause_of is_done handle_packet handle_send ask_filter count_total packet_of offer deliver
    write_out count_sent is_injected compare_net_addr listen turn_of packet_from is_timeout_error
    new_tcp_proxy tcp_send tcp_to_client tcp_to_server
handle_packets-IsTransparent_example =
    handle_packets-IsTransparent 0 1 strict 0 (λ x. none) fine spoken asks answers both_ways
      unfiltered refl (inl ([], refl, inr ([], refl, (refl, refl)))) unfiltered-IsRunning
      (here, omega arith, refl, refl, (here, omega arith, refl, refl, tt))

-- What `match` reads, as packets.
abbrev dealt : List ((Spawner → Spawner) × PacketData)
dealt =
    ((λ p. p), record { serverbound = true; source = player; dest = game; content = 1 ∷ [] })
    ∷ ((λ p. p), record { serverbound = false; source = game; dest = player; content = 2 ∷ [] })
    ∷ ((λ p. p), record { serverbound = true; source = player; dest = game; content = 4 ∷ [] })
    ∷ []

handle_packets-IsRouted_example :
    Returns (handle_packets (through 0 (udp_send fine match) strict) 0 dealt unfiltered) (
      Carries 0 0
        (udp_send fine match)
        player
        game
        ((1 ∷ []) ∷ (4 ∷ []) ∷ [])
        ((2 ∷ []) ∷ [])
        unfiltered)
unfolding cause_of is_done handle_packet handle_send ask_filter count_total packet_of offer deliver
    write_out count_sent is_injected compare_net_addr udp_listen read_loop udp_turn_of first_packet
    route is_timeout_error new_udp_proxy udp_send udp_to_client udp_to_server
handle_packets-IsRouted_example =
    handle_packets-IsRouted 0 1 strict 0 patient fine match reads dealt unfiltered refl refl
      unfiltered-IsRunning
      (
        here,
        omega arith,
        refl,
        refl,
        (here, omega arith, refl, refl, (here, omega arith, refl, refl, tt)),
      )
