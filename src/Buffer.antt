-- ===== src/Buffer.antt =====
-- The two byte buffers of src/common.c, and struct mwOpaque, which carries bytes between them.
pub mod Opaque
pub mod Put
pub mod Get
