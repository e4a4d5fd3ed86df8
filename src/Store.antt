-- ===== src/Store.antt =====
-- store/store.go: the in-memory store of users, groups and keys.
pub mod State
pub mod Step
pub mod Spec
pub mod Refines
pub mod Cached
pub mod KeyRound
pub mod Workers
pub mod RoundEnds
pub mod KeysDue
pub mod Groups
pub mod Members
pub mod Listings
pub mod Lookups
pub mod Panic
pub mod Evolution
pub mod Provenance
pub mod KeyWrites
pub mod Refreshed
pub mod Updates
pub mod WellFormed
pub mod Index
pub mod Refresh
pub mod Keys
pub mod Query
pub mod Calls
pub mod Provider
