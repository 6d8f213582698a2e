-- ===== src/Exchange.antt =====
-- The client and the server together: what src/client sends of a download, src/server serves.
pub mod Downloads
pub mod Requests
