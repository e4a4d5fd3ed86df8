-- ===== src/Tests.antt =====
-- Each theorem at an input that meets its hypotheses, and runs of the code.
mod Protocol
mod Samples
mod Store
mod Keys
mod EndToEnd
mod Gcua
mod Cases
mod Tasks
mod Service
mod Nss
mod Api
