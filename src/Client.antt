-- ===== src/Client.antt =====
-- client.go, circuit.go, l1peer.go and l2peer.go: a node of the network.
pub mod State
pub mod Peers
pub mod L2
pub mod Circuits
pub mod L2Search
pub mod Relay
pub mod Decrypt
pub mod Rendezvous
pub mod Dialling
pub mod Connection
pub mod Onion
pub mod Replies
