-- ===== src/Proxy/Runs.antt =====
-- The listeners and the connections beside all else that package handler does: proxy/udp.go and
-- proxy/tcp.go with handler/spawner.go and handler/proxy.go.
pub mod Udp
pub mod Tcp
pub mod Sends
pub mod Relay
pub mod Datagrams
