-- ===== src/Session/Send.antt =====
-- The bytes that mwSession_send of src/session.c writes for a message: the message as an opaque.
pub mod Laws
use meanwhile.Base.{List, ℕ}
use meanwhile.Buffer.Opaque.{Opaque, opaque_bytes}
use meanwhile.Buffer.Put.{put_buffer_new, put_buffer_finalize}
use meanwhile.Basic.Nested.{nested}
use meanwhile.Message.Dispatch.{Message, message_put}

-- Rendered into an opaque, which is rendered into another.
unfoldable pub frame : Message → Opaque
frame msg = put_buffer_finalize (nested (message_put msg) put_buffer_new)

-- What is given to io_write.
abbrev pub frame_bytes : Message → List ℕ
frame_bytes msg = opaque_bytes (frame msg)
