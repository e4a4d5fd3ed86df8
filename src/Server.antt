-- ===== src/Server.antt =====
-- server/server.go: the daemon's side of the socket.
pub mod Marshal
pub mod Request
pub mod Respond
pub mod Serve
