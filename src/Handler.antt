-- ===== src/Handler.antt =====
-- The Go package handler.
pub mod Flags
pub mod State
pub mod Send
pub mod Container
pub mod Connections
pub mod Listener
pub mod Pruner
pub mod Lifecycle
pub mod Invariant
pub mod Life
pub mod Process
