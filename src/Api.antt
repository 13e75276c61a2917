-- ===== src/Api.antt =====
-- The Go package api.
pub mod Http
pub mod Hex
pub mod Perms
pub mod Auth
pub mod Keys
pub mod Endpoints
pub mod WebSocket
pub mod Session
pub mod Server
