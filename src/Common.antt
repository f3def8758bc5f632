-- ===== src/Common.antt =====
-- The compound types of src/common.c, a module each, and what they share.
pub mod Rules
pub mod LoginInfo
pub mod UserItem
pub mod PrivacyInfo
pub mod UserStatus
pub mod Ids
pub mod EncryptItem
pub mod Snapshot
pub mod Clones
