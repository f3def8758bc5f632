-- ===== src/Session/Recv.antt =====
-- mwSession_recv of src/session.c: bytes arrive in pieces of any size, and are buffered until a
-- message is whole. `W` is the rest of the session and its world, which handling a message changes.
pub mod Stream
pub mod Laws
pub mod Buffered
pub mod Rounds
pub mod Empty
pub mod Refines
use meanwhile.Base.{
  ℕ, zero, suc, ◌+◌, ◌-◌, ◌<◌, ◌≡◌, Bool, true, false, some, List, [], ◌∷◌, ◌++◌, take, drop,
  length, ltb, leb, ◌==◌, ◌%◌, if◌then◌else◌, gsize_sub,
}
use meanwhile.Buffer.Opaque.{Opaque}
use meanwhile.Buffer.Get.{get_buffer_wrap}
use meanwhile.Basic.{guint32_peek}

-- The input buffer: `buf` has the bytes of the block that are set.
pub record Recv : Type 0 where
  pub buf : List ℕ
  pub buf_len : ℕ
  pub buf_used : ℕ

-- session_buf_free
abbrev pub session_buf_free : Recv
session_buf_free = record { buf = []; buf_len = 0; buf_used = 0 }

-- memcpy(s->buf + s->buf_used, bytes, n)
abbrev pub store : Recv → List ℕ → List ℕ
store s bytes = take s.buf_used s.buf ++ bytes

-- guint32_peek in a buffer that wraps the bytes
abbrev pub peek_length : List ℕ → ℕ
peek_length bytes =
    guint32_peek (get_buffer_wrap (some (record { len = length bytes; data_ = some bytes })))

-- The keep-alive and series bytes in front of a message: while(n && ( *b & 0x80)).
unfoldable pub skip_series : List ℕ → List ℕ
skip_series [] = []
skip_series (c ∷ b) = if leb 128 (c % 256) then skip_series b else c ∷ b

module _ {W : Type 0} (handle : List ℕ → W → W) where
  -- session_process, which ignores a message of no bytes.
  unfoldable pub session_process : List ℕ → W → W
  session_process bytes w = if length bytes == 0 then w else handle bytes w

  -- The branch of session_recv_cont in which the length is complete: `b` follows it.
  unfoldable pub recv_body : List ℕ → List ℕ → W → Recv × W × ℕ
  recv_body size b w =
      let x = peek_length size in
      if ltb (length b) x
      then (record { buf = take 4 size ++ b; buf_len = x + 4; buf_used = length b + 4 }, w, 0)
      else (session_buf_free, session_process (take x b) w, length b - x)

  -- Each of these returns how many bytes of `b` are left.
  unfoldable pub session_recv_cont : Recv → W → List ℕ → Recv × W × ℕ
  session_recv_cont s w b =
      let x = gsize_sub s.buf_len s.buf_used in
      let full = store s (take x b) in
      if ltb (length b) x
      then (record s { buf = store s b; buf_used = s.buf_used + length b }, w, 0)
      else if s.buf_len == 4
      then recv_body full (drop x b) w
      else (session_buf_free, session_process (take (s.buf_len - 4) (drop 4 full)) w, length b - x)

  unfoldable pub session_recv_empty : Recv → W → List ℕ → Recv × W × ℕ
  session_recv_empty s w b =
      let x = peek_length b in
      if ltb (length b) 4
      then (record { buf = b; buf_len = 4; buf_used = length b }, w, 0)
      else if x == 0
      then (s, w, length b - 4)
      else if ltb (length b) (x + 4)
      then (record { buf = b; buf_len = x + 4; buf_used = length b }, w, 0)
      else (s, session_process (take x (drop 4 b)) w, length b - 4 - x)

  unfoldable pub session_recv : Recv → W → List ℕ → Recv × W × ℕ
  session_recv s w b =
      let b' = if s.buf_len == 0 then skip_series b else b in
      if length b' == 0
      then (s, w, 0)
      else if ltb 0 s.buf_len
      then session_recv_cont s w b'
      else session_recv_empty s w b'

  -- while(n > 0), with a round of fuel for each byte.
  unfoldable pub recv_rounds : ℕ → Recv → W → List ℕ → Recv × W × List ℕ
  recv_rounds zero s w b = (s, w, b)
  recv_rounds (suc fuel) s w b =
      let r = session_recv s w b in
      let rest = recv_rounds fuel r.0 r.1 (drop (length b - r.2) b) in
      if length b == 0 then (s, w, b) else rest

  -- mwSession_recv; the third part is what the fuel leaves unread.
  unfoldable pub session_recv_all : Recv → W → List ℕ → Recv × W × List ℕ
  session_recv_all s w b = recv_rounds (length b) s w b
