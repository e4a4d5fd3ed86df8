-- ===== src/Tasks.antt =====
-- The goroutines of store/store.go: `updateTask`, the callers of `UserByName`, and the key updates.
pub mod State
pub mod Step
pub mod Keys
pub mod Queue
pub mod Answers
pub mod Liveness
pub mod Tries
pub mod Freshness
pub mod Composed
pub mod KeysGiven
pub mod Provenance
