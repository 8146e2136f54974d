-- ===== src/Serialize.antt =====
-- serialize.c of the client and of the server: the packet and the two configuration messages.
-- Bytes written are listed in order; a `for` over an array of a struct runs over its elements.
pub mod Packet
pub mod Configs
pub mod Arrays
