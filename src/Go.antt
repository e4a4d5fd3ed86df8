-- ===== src/Go.antt =====
-- What the program uses of Go's standard library.
pub mod Strings
pub mod Paths
pub mod Strconv
pub mod Map
