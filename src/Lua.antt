-- ===== src/Lua.antt =====
-- The Go package ezp_lua: scripts that watch, filter and inject packets.
pub mod Values
pub mod Proxy
pub mod Spawner
pub mod Callback
pub mod Binding
