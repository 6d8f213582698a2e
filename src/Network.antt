-- ===== src/Network.antt =====
-- src/network.
pub mod Memory
pub mod Socket
pub mod Endpoints
