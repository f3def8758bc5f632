-- ===== src/Session/Send/Laws.antt =====
-- What one session sends another one receives, however the bytes are cut into pieces.
use meanwhile.Base.{
  ℕ, ◌^◌, ◌<◌, ◌≡◌, refl, ap, ◌∙◌, arith, true, Option, some, List, [], ◌∷◌, ◌++◌, append_assoc,
  append-nil, All, map, length, take_all,
}
use meanwhile.Buffer.Opaque.{Opaque}
use meanwhile.Buffer.Get.{get_buffer_wrap}
use meanwhile.Basic.Wire.{wire16, wire32, wire_opaque}
use meanwhile.Basic.Nested.Laws.{
  nested-Writes, put_buffer_finalize-Writes, get_buffer_wrap-cursor, length-wire_opaque,
}
use meanwhile.Message.Head.{wire_message_head}
use meanwhile.Message.Dispatch.{Message, Uninit, message_get}
use meanwhile.Message.Dispatch.Wire.{wire_message, unread, received, IsMessage, has_writer}
use meanwhile.Message.Dispatch.Laws.{message_put-Writes, message_get-Reads}
use meanwhile.Session.Recv.{session_buf_free, session_process}
use meanwhile.Session.Recv.Stream.{size_of, feed_all}
use meanwhile.Session.Recv.Laws.{IsWhole, feed_all-whole, feed_all-append}
use meanwhile.Session.Recv.Buffered.{buffered}
use meanwhile.Session.Recv.Refines.{joined, recv_pieces, recv_pieces-feed_all}
use meanwhile.Session.Send.{frame, frame_bytes}

-- The bytes of a message.
abbrev pub body_of : Message → List ℕ
body_of m = wire_message m ++ unread m

-- A message that can be sent: it fits the wire, has a writer, and is shorter than 2 ^ 31 bytes, so
-- that its length does not look like a keep-alive byte.
pub record IsSendable (m : Message) : Type 0 where
  pub fits : IsMessage m
  pub writer : has_writer m ≡ true
  pub short : length (body_of m) < 2 ^ 31

-- What is written for a message: its bytes as an opaque, of which the length comes first.
frame_bytes_lem : (m : Message) → IsSendable m → frame_bytes m ≡ wire_opaque (body_of m)
unfolding frame
frame_bytes_lem m h =
    (put_buffer_finalize-Writes (nested-Writes (message_put-Writes m h.fits h.writer))
      (omega (arith, length-wire_opaque (body_of m), h.short))).1

body_of_some : (m : Message) → 0 < length (body_of m)
unfolding wire_message wire_message_head wire16
body_of_some m = omega arith

size_of-wire_opaque :
    (bytes : List ℕ) → length bytes < 2 ^ 31 → size_of (wire_opaque bytes) ≡ length bytes
unfolding wire_opaque wire32
size_of-wire_opaque bytes h = omega arith

wire_opaque-IsWhole : (bytes : List ℕ) → length bytes < 2 ^ 31 → IsWhole (wire_opaque bytes)
wire_opaque-IsWhole bytes h = omega (arith, length-wire_opaque bytes, size_of-wire_opaque bytes h)

module _ {W : Type 0} (handle : List ℕ → W → W) where
  process_some :
      (bytes : List ℕ) (w : W) → 0 < length bytes → session_process handle bytes w ≡ handle bytes w
  unfolding session_process
  process_some bytes w h = ground arith

  -- A whole message in the stream.
  feed_all-wire_opaque :
      (bytes : List ℕ) (w : W)
      → 0 < length bytes
      → length bytes < 2 ^ 31
      → feed_all handle [] w (wire_opaque bytes) ≡ ([], handle bytes w)
  feed_all-wire_opaque bytes w pos small =
      feed_all-whole handle [] (wire_opaque bytes) w (unfold wire_opaque wire32 in ground arith)
        (omega arith) (wire_opaque-IsWhole bytes small)
      ∙ (unfold wire_opaque wire32 in ap (λ (v : W). ([], v)) (process_some bytes w pos))

-- What a session keeps that only reads the messages: each is added behind those that came before.
abbrev pub read_message : Uninit → List ℕ → List (Option Message) → List (Option Message)
read_message u bytes seen =
    seen
    ++ ((message_get u
          (get_buffer_wrap (some (record { len = length bytes; data_ = some bytes })))).0
        ∷ [])

-- The bytes of messages that are sent one after the other.
abbrev pub sent : List Message → List ℕ
sent [] = []
sent (m ∷ ms) = frame_bytes m ++ sent ms

read_message_lem :
    (u : Uninit) (m : Message) (seen : List (Option Message))
    → IsSendable m
    → read_message u (body_of m) seen ≡ seen ++ (some (received m) ∷ [])
read_message_lem u m seen h =
    let bytes = body_of m in
    let o : Opaque = record { len = length bytes; data_ = some bytes } in
    rw
      (
        get_buffer_wrap-cursor o bytes refl (take_all bytes),
        (message_get-Reads u m h.fits).run [] (unread m) true,
      )
      refl

feed_all-sent :
    (u : Uninit) (ms : List Message) (seen : List (Option Message))
    → All IsSendable ms
    → feed_all (read_message u) [] seen (sent ms) ≡ ([], seen ++ map (λ m. some (received m)) ms)
feed_all-sent u [] seen h = unfold feed_all in rw append-nil
feed_all-sent u (m ∷ ms) seen h =
    let f = read_message u in
    let next = seen ++ (some (received m) ∷ []) in
    ap (λ (t : List ℕ). feed_all f [] seen (t ++ sent ms)) (frame_bytes_lem m h.0)
    ∙ feed_all-append f [] seen (wire_opaque (body_of m)) (sent ms)
    ∙ ap (λ (k : List ℕ × List (Option Message)). feed_all f k.0 k.1 (sent ms))
        (feed_all-wire_opaque f (body_of m) seen (body_of_some m) h.0.short)
    ∙ ap (λ (k : List (Option Message)). feed_all f [] k (sent ms)) (read_message_lem u m seen h.0)
    ∙ feed_all-sent u ms next h.1
    ∙ ap (λ (k : List (Option Message)). ([], k))
        (append_assoc seen (some (received m) ∷ []) (map (λ m. some (received m)) ms))

-- What mwSession_send writes for a list of messages (each fits the wire, has a writer, and is
-- shorter than 2 ^ 31 bytes), cut into any pieces and given to mwSession_recv from an empty
-- buffer: mwMessage_get reads each of the messages, in this order, as `received` says, and the
-- buffer is empty again.
pub recv_pieces-sent :
    (u : Uninit) (ms : List Message) (bs : List (List ℕ))
    → All IsSendable ms
    → joined bs ≡ sent ms
    → recv_pieces (read_message u) session_buf_free [] bs
      ≡ (session_buf_free, map (λ m. some (received m)) ms)
recv_pieces-sent u ms bs h e =
    let f = read_message u in
    recv_pieces-feed_all f [] [] bs (omega arith)
    ∙ ap (λ (t : List ℕ). (buffered (feed_all f [] [] t).0, (feed_all f [] [] t).1)) e
    ∙ ap (λ (k : List ℕ × List (Option Message)). (buffered k.0, k.1)) (feed_all-sent u ms [] h)
