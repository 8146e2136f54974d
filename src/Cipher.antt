-- ===== src/Cipher.antt =====
-- DES/cipher.c of the client and of the server: the block cipher and its key table.
pub mod Block
pub mod Table
pub mod Key
