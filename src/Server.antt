-- ===== src/Server.antt =====
-- server.go: the rendez-vous server that all the server programs share.
pub mod State
pub mod Registry
pub mod Clients
pub mod Aliases
