-- ===== src/Examples.antt =====
-- The theorems at concrete inputs, by component.
mod Errors
mod Login
mod Pools
mod Data
mod Sockets
mod Connections
mod Servers
mod Values
mod Secure
mod Objects
mod Clients
