-- ===== src/Server.antt =====
-- server.c: the jobs that clients send, and the two threads that serve them.
pub mod Wire
pub mod Worker
pub mod Session
