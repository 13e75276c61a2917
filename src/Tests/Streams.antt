-- ===== src/Tests/Streams.antt =====
-- A TCP proxy at concrete reads: proxy/tcp.go.
use ezproxy.Base.{◌≡◌, false, ◌∷◌, []}
use ezproxy.Errors.{external, end_of_file, proxy_retry}
use ezproxy.Proxy.Net.{is_timeout_error, compare_net_addr, cancelled}
use ezproxy.Proxy.Tcp.{TcpProxy, new_tcp_proxy, packet_from, got, unread, listen}
use ezproxy.Proxy.Tcp.Laws.{listen-heard}
use ezproxy.Tests.Data.{server, local}
use ezproxy.Tests.Sockets.{patient}

abbrev stream : TcpProxy
stream = new_tcp_proxy local server

listen-heard_example :
    listen patient stream server (
      record { over = false; read = got (1 ∷ []) }
      ∷ record { over = false; read = unread (external 0) }
      ∷ record { over = false; read = unread end_of_file }
      ∷ record { over = false; read = got (2 ∷ []) }
      ∷ [])
    ≡ (
      record { serverbound = false; source = server; dest = local; content = 1 ∷ [] } ∷ [],
      cancelled proxy_retry,
    )
unfolding packet_from is_timeout_error compare_net_addr new_tcp_proxy
listen-heard_example = listen-heard patient stream server (
    record { over = false; read = got (1 ∷ []) }
    ∷ record { over = false; read = unread (external 0) }
    ∷ record { over = false; read = unread end_of_file }
    ∷ record { over = false; read = got (2 ∷ []) }
    ∷ [])
