-- ===== src/Nss.antt =====
-- nssplugin/utils.cc and nssplugin/libnss_google.cc: the plug-in of the name service switch.
pub mod Outcome
pub mod Strings
pub mod Buffer
pub mod Convert
pub mod Daemon
pub mod Calls
pub mod Tokens
pub mod Ids
pub mod Entries
pub mod Answers
pub mod Listing
pub mod Held
pub mod Vector
pub mod Groups
