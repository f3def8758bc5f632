-- ===== src/Cipher.antt =====
-- src/cipher.c: the RC2 block cipher, its chaining, its key expansion, and the two ciphers of a channel.
pub mod Key
pub mod Block
pub mod Chain
pub mod Rc240
pub mod Rc2128
pub mod Instance
