-- ===== src/Server/Session.antt =====
-- src/server/Session.h and Session.cpp: one client's connection. A method takes the session and
-- the server and returns them changed; the log is left out, and so is the closing of files.
pub mod State
pub mod Replies
pub mod Commands
pub mod Downloads
pub mod Writing
pub mod Handle
