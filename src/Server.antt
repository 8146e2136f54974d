-- ===== src/Server.antt =====
-- server/server.c
pub mod Receive
pub mod Database
pub mod Process
pub mod Start
pub mod Loop
pub mod Whole
pub mod Main
pub mod Cipher
