-- ===== src/Gcua.antt =====
-- gcua/gcua.go: the daemon's main program.
pub mod Main
pub mod Ending
