-- ===== src/Buffer/Put.antt =====
-- struct mwPutBuffer of src/common.c: a growing block of bytes with a write position.
-- A cell of the heap block is `none` until it is written; a block of no cells stands for NULL.
-- The constants of `gsize` are those of a 64-bit build.
pub mod Laws
use meanwhile.Base.{
  ℕ, zero, suc, ◌+◌, Bool, Option, none, some, List, [], ◌∷◌, ◌++◌, take, drop, length, replicate,
  ltb, leb, ◌==◌, if◌then◌else◌, gsize_sub, gsize_double,
}
use meanwhile.Buffer.Opaque.{Opaque}

abbrev pub Cell : Type 0
Cell = Option ℕ

pub record PutBuffer : Type 0 where
  pub buf : List Cell
  pub len : ℕ
  pub ptr : ℕ
  pub rem : ℕ

-- A writer of the buffer; `>>` is the sequence of two statements.
abbrev pub Put : Type 0
Put = PutBuffer → PutBuffer

infixl 5 ◌>>◌
unfoldable pub ◌>>◌ : Put → Put → Put
◌>>◌ f g b = g (f b)

-- A statement that does nothing.
abbrev pub skip : Put
skip b = b

-- if(c) f;
unfoldable pub put_if : Bool → Put → Put
put_if c f = if c then f else skip

-- g_malloc: the cells are not yet written.
abbrev pub g_malloc : ℕ → List Cell
g_malloc n = replicate n none

-- memcpy of bytes to an offset; what would fall outside of the block is lost.
unfoldable pub blit : List Cell → ℕ → List ℕ → List Cell
blit [] off bytes = []
blit (c ∷ cs) (suc off) bytes = c ∷ blit cs off bytes
blit (c ∷ cs) zero [] = c ∷ cs
blit (c ∷ cs) zero (v ∷ vs) = some v ∷ blit cs zero vs

-- The bytes of the cells, up to the first that is not written.
abbrev pub bytes_of : List Cell → List ℕ
bytes_of [] = []
bytes_of (none ∷ cs) = []
bytes_of (some v ∷ cs) = v ∷ bytes_of cs

abbrev pub data_of : List Cell → Option (List ℕ)
data_of [] = none
data_of (c ∷ cs) = some (bytes_of (c ∷ cs))

-- BUFFER_USED
abbrev pub buffer_used : PutBuffer → ℕ
buffer_used b = gsize_sub b.len b.rem

-- while( (len - used) < needed ) len = len << 1;
unfoldable pub grow : ℕ → ℕ → ℕ → ℕ → ℕ
grow zero len used needed = len
grow (suc fuel) len used needed =
    let more = grow fuel (gsize_double len) used needed in
    if ltb (gsize_sub len used) needed then more else len

-- A shift by 64 places empties a gsize, so no later round changes the length.
abbrev pub grow_rounds : ℕ
grow_rounds = 64

-- if(b->buf) memcpy(buf, b->buf, used);
abbrev pub copy_old : List Cell → ℕ → List Cell → List Cell
copy_old fresh used [] = fresh
copy_old fresh used (c ∷ cs) = take used (c ∷ cs) ++ drop used fresh

unfoldable pub ensure_buffer : ℕ → Put
ensure_buffer needed b =
    let used = buffer_used b in
    let len = grow grow_rounds (if b.len == 0 then 1024 else b.len) used needed in
    let grown : PutBuffer = record {
      buf = copy_old (g_malloc len) used b.buf;
      len = len;
      ptr = used;
      rem = gsize_sub len used;
    } in
    if ltb b.rem needed then grown else b

-- memcpy(b->ptr, bytes, len); b->ptr += len;
unfoldable pub copy_in : List ℕ → Put
copy_in bytes b = record b { buf = blit b.buf b.ptr bytes; ptr = b.ptr + length bytes }

-- *(b->ptr)++ = v;
unfoldable pub poke : ℕ → Put
poke v = copy_in (v ∷ [])

-- b->rem -= n;
unfoldable pub take_rem : ℕ → Put
take_rem n b = record b { rem = gsize_sub b.rem n }

abbrev pub put_buffer_new : PutBuffer
put_buffer_new = record { buf = []; len = 0; ptr = 0; rem = 0 }

-- ensure_buffer, memcpy and the two updates, as put_buffer_write and its kin do them.
unfoldable pub append_bytes : List ℕ → Put
append_bytes bytes = do ensure_buffer (length bytes); copy_in bytes; take_rem (length bytes)

-- `bytes` are the len bytes that `data` points to.
unfoldable pub put_buffer_write : List ℕ → Put
put_buffer_write bytes = if length bytes == 0 then skip else append_bytes bytes

-- mwPutBuffer_finalize: the block and the count of its used bytes move to the opaque.
unfoldable pub put_buffer_finalize : PutBuffer → Opaque
put_buffer_finalize b = record { len = buffer_used b; data_ = data_of b.buf }
