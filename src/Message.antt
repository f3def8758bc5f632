-- ===== src/Message.antt =====
-- The messages of src/message.c, and how a message is read and written by its type.
pub mod Head
pub mod Handshake
pub mod Login
pub mod Status
pub mod Encrypt
pub mod Channel
pub mod Announce
pub mod Dispatch
