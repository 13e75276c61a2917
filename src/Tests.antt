-- ===== src/Tests.antt =====
-- The theorems at concrete states: a small spawner of package handler with its connections, a small
-- table of keys and WebSockets of package api, scripts, and the programs.
mod Data
mod Sends
mod Calls
mod Runs
mod Access
mod Web
mod Sockets
mod Streams
mod Scripts
mod Starts
mod Verdicts
mod Echo
mod Relays
