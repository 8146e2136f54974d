-- ===== src/Tests.antt =====
-- The theorems at concrete inputs.
mod Wire
mod Cluster
mod Start
mod Whole
mod Cipher
mod Threads
mod Settings
mod Connections
mod Load
mod Client
mod Server
