-- ===== src/Logger.antt =====
-- logger/logger.go: what a process writes to the syslog and to its standard error, and how it ends.
pub mod Format
pub mod Process
pub mod Fatal
