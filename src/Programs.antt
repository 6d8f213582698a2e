-- ===== src/Programs.antt =====
-- server.cpp and client.cpp: the two programs.
pub mod Arguments
pub mod ServerMain
pub mod ClientMain
