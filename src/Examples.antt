-- ===== src/Examples.antt =====
-- The theorems at concrete inputs, and the packages that these inputs use.
mod Packages
mod Texts
mod Nonces
mod Servers
mod Stores
mod Nodes
mod Introductions
mod Replies
mod Confirming
mod Connecting
mod Waits
mod Reaches
mod Logs
mod Dials
mod Connections
mod Searching
mod Gateways
mod Choices
