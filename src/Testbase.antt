-- ===== src/Testbase.antt =====
-- testbase: the mock provider, the sample data, and the test cases.
pub mod Provider
pub mod Data
pub mod Cases
unfoldable pub use Provider.*
pub use Data.*
