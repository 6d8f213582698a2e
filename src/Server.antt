-- ===== src/Server.antt =====
-- src/server.
pub mod ThreadPool
pub mod Instance
pub mod Session
pub mod Epoll
pub mod Listeners
pub mod Startup
pub mod Events
pub mod Workers
