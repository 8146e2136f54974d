-- ===== src/Client.antt =====
-- client/client.c
pub mod Rate
pub mod Events
pub mod Load
pub mod Start
pub mod Update
pub mod Main
