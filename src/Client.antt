-- ===== src/Client.antt =====
-- server/client.go: the client's side of the socket.
pub mod Unmarshal
pub mod Send
pub mod Calls
