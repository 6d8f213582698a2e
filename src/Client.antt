-- ===== src/Client.antt =====
-- src/client.
pub mod DownloadManager
pub mod Commands
