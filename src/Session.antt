-- ===== src/Session.antt =====
-- src/session.c: how a session frames the messages that it receives and sends, how it logs in, and
-- its states.
pub mod Recv
pub mod Send
pub mod Auth
pub mod State
