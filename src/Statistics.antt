-- ===== src/Statistics.antt =====
-- statistics.c of the server and of the client: counters that run over a second and over a minute.
pub mod Server
pub mod Client
pub mod Races
