-- ===== src/Message/Dispatch/Promises.antt =====
-- What mwMessage_put and mwMessage_get promise to their callers, in the terms of the buffers.
use meanwhile.Base.{ℕ, ◌+◌, ◌≤◌, ◌≡◌, refl, true, false, some, List, [], ◌++◌, length}
use meanwhile.Buffer.Put.{Cell, put_buffer_new, put_buffer_finalize}
use meanwhile.Buffer.Put.Laws.{filled, max_wire}
use meanwhile.Buffer.Get.{GetBuffer, get_buffer_new}
use meanwhile.Buffer.Get.Safe.{IsValid}
use meanwhile.Basic.Nested.Laws.{put_buffer_finalize-Writes, get_buffer_new-cursor}
use meanwhile.Message.Dispatch.{Message, Uninit, message_get, message_put}
use meanwhile.Message.Dispatch.Wire.{unread, wire_message, received, IsMessage, has_writer}
use meanwhile.Message.Dispatch.Laws.{message_get-Reads, message_put-Writes, message_get-IsReader}

-- A message that fits the wire (IsMessage: its fields in range, its unsent fields zero, its type
-- that of its struct), that has a writer, and whose bytes are at most max_wire: when
-- mwMessage_put writes it to a new buffer, and mwMessage_get reads the opaque that this is turned
-- into, it comes out as `received` says, whatever the reader's uninitialised variables hold, and
-- the reader's buffer has no error.
pub message_get-put :
    (u : Uninit) (m : Message)
    → IsMessage m
    → has_writer m ≡ true
    → length (wire_message m ++ unread m) ≤ max_wire
    → let r =
        message_get u
          (get_buffer_new (some (put_buffer_finalize (message_put m put_buffer_new)))) in
      (r.0 ≡ some (received m)) × (r.1.error ≡ false)
message_get-put u m h e small =
    let (size, holds) = put_buffer_finalize-Writes (message_put-Writes m h e) small in
    let o = put_buffer_finalize (message_put m put_buffer_new) in
    rw
      (
        get_buffer_new-cursor o (wire_message m ++ unread m) size holds,
        (message_get-Reads u m h).run [] (unread m) false,
      )
      (refl, refl)

-- mwMessage_put on a buffer that holds `xs`, for a message that fits the wire and has a writer,
-- up to max_wire bytes in all: the buffer then holds `xs`, the wire format of the message, and
-- the bytes that its reader leaves.
pub message_put-filled :
    (m : Message) (xs : List ℕ) (spare : List Cell)
    → IsMessage m
    → has_writer m ≡ true
    → length xs + length (wire_message m ++ unread m) ≤ max_wire
    → (spare' : List Cell) × (message_put m (filled xs spare)
        ≡ filled (xs ++ (wire_message m ++ unread m)) spare')
message_put-filled m xs spare h e small = (message_put-Writes m h e).run xs spare small

-- mwMessage_get on any bytes at all, well formed or not, and whatever its uninitialised variables
-- hold: a buffer whose place and remaining count agree with its block stays so, its block is not
-- changed, and its place does not move back.
pub message_get-IsValid :
    (u : Uninit) (b : GetBuffer)
    → IsValid b
    → let b' = (message_get u b).1 in IsValid b' × ((b'.buf ≡ b.buf) × (b.ptr ≤ b'.ptr))
message_get-IsValid u b v =
    let step = (message_get-IsReader u).run b in (step.valid v, (step.same, step.forward))
