-- ===== src/Protocol.antt =====
-- The protocol of server/server.go and server/client.go, end to end: the client's calls
-- against the provider behind the server.
pub mod Safe
pub mod RoundTrip
pub mod Wire
pub mod Calls
pub mod Answers
pub mod Limits
pub mod Refinement
pub mod Serving
pub mod Handling
pub mod Received
