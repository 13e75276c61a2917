-- ===== src/Proxy.antt =====
-- The Go package proxy: the connections over UDP and TCP, and their listeners.
pub mod Net
pub mod Runs
pub mod Udp
pub mod Tcp
