-- ===== src/Buffer/Get.antt =====
-- struct mwGetBuffer of src/common.c: a block of bytes with a read position and an error flag.
-- `buf` holds the bytes of the block, `ptr` is the offset of the C pointer from its head.
pub mod Laws
pub mod Safe
pub mod Ops
use meanwhile.Base.{
  ℕ, suc, ◌+◌, ◌*◌, ◌%◌, ◌^◌, Bool, true, false, List, [], ◌∷◌, take, drop, length, get_or, ltb,
  leb, ◌==◌, if◌then◌else◌, gsize_sub, Option, none, some,
}
use meanwhile.Buffer.Opaque.{Opaque, opaque_bytes}

pub record GetBuffer : Type 0 where
  pub buf : List ℕ
  pub len : ℕ
  pub ptr : ℕ
  pub rem : ℕ
  pub wrap : Bool
  pub error : Bool

-- A reader: the value that it leaves in its target, and the buffer after it.
abbrev pub Get : Type 0 → Type 0
Get A = GetBuffer → A × GetBuffer

infixl 5 ◌>>=◌
unfoldable pub ◌>>=◌ : {A B : Type 0} → Get A → (A → Get B) → Get B
◌>>=◌ m f b = let (a, b') = m b in f a b'

unfoldable pub pure : {A : Type 0} → A → Get A
pure a b = (a, b)

-- if(b->error) return; in front of the rest of a reader, whose target stays `old`.
unfoldable pub unless_error : {A : Type 0} → A → Get A → Get A
unless_error old m b = if b.error then (old, b) else m b

-- g_return_if_fail(check_buffer(b, needed)); check_buffer sets the flag, and the rest is skipped
-- when it is set.
unfoldable pub check_buffer : ℕ → GetBuffer → GetBuffer
check_buffer needed b = if b.error then b else record b { error = ltb b.rem needed }

unfoldable pub checked : {A : Type 0} → ℕ → A → Get A → Get A
checked needed old m b = unless_error old m (check_buffer needed b)

-- if(c) m; else k;
unfoldable pub branch : {A : Type 0} → Bool → Get A → Get A → Get A
branch c m k = if c then m else k

-- *(b->ptr)++
unfoldable pub fetch : Get ℕ
fetch b = (get_or b.buf b.ptr 0, record b { ptr = b.ptr + 1 })

-- b->rem -= n;
unfoldable pub drop_rem : {A : Type 0} → ℕ → A → Get A
drop_rem n a b = (a, record b { rem = gsize_sub b.rem n })

-- memcpy(data, b->ptr, n); b->ptr += n;
unfoldable pub copy_out : ℕ → Get (List ℕ)
copy_out n b = (take n (drop b.ptr b.buf), record b { ptr = b.ptr + n })

-- copy_out and the update of `rem`.
unfoldable pub read_bytes : ℕ → Get (List ℕ)
read_bytes n = do bytes ← copy_out n; drop_rem n bytes

-- The buffer over the bytes of `o`; a NULL or empty `o` leaves the fields zero.
abbrev over : Option Opaque → Bool → GetBuffer
over none w = record { buf = []; len = 0; ptr = 0; rem = 0; wrap = w; error = false }
over (some o) w =
    if o.len == 0
    then record { buf = []; len = 0; ptr = 0; rem = 0; wrap = w; error = false }
    else record { buf = opaque_bytes o; len = o.len; ptr = 0; rem = o.len; wrap = w; error = false }

-- mwGetBuffer_new reads a copy of the bytes, mwGetBuffer_wrap borrows them.
unfoldable pub get_buffer_new : Option Opaque → GetBuffer
get_buffer_new o = over o false

unfoldable pub get_buffer_wrap : Option Opaque → GetBuffer
get_buffer_wrap o = over o true

-- mwGetBuffer_read: the bytes copied to `data`; their count is what the function returns.
unfoldable pub get_buffer_read : ℕ → Get (List ℕ)
get_buffer_read len b =
    let n = if ltb b.rem len then b.rem else len in
    if b.error then ([], b) else if len == 0 then ([], b) else read_bytes n b

-- mwGetBuffer_advance
unfoldable pub get_buffer_advance : ℕ → Get ℕ
get_buffer_advance len b =
    let n = if ltb b.rem len then b.rem else len in
    if b.error
    then (0, b)
    else if len == 0
    then (0, b)
    else (n, record b { ptr = b.ptr + n; rem = gsize_sub b.rem n })

unfoldable pub get_buffer_reset : GetBuffer → GetBuffer
get_buffer_reset b = record b { rem = b.len; ptr = 0; error = false }

abbrev pub get_buffer_remaining : GetBuffer → ℕ
get_buffer_remaining b = b.rem

abbrev pub get_buffer_error : GetBuffer → Bool
get_buffer_error b = b.error
