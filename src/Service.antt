-- ===== src/Service.antt =====
-- The daemon as a whole: the connections of server/server.go over the goroutines of store/store.go.
pub mod Asks
pub mod Step
pub mod GoesOn
pub mod Linked
pub mod Kept
pub mod Replies
pub mod Waits
pub mod Progress
pub mod Keys
pub mod ApiKeys
