-- ===== src/Basic.antt =====
-- The basic types of src/common.c: guint16, guint32, gboolean, strings and opaques, each with its
-- writer, its reader and what the reader finds in the buffer's first bytes (`peek`).
-- A `char *` is `none` for NULL, or the bytes of its block before the terminating zero that
-- g_malloc0 and g_strdup leave behind them; a zero may also stand inside.
pub mod Wire
pub mod Writes
pub mod Reads
pub mod Safe
pub mod Nested
pub mod Limits
use meanwhile.Base.{
  ℕ, suc, ◌+◌, ◌*◌, ◌/◌, ◌%◌, ◌^◌, Bool, true, false, not, ◌||◌, Option, none, some, List, [], ◌∷◌,
  take, length, get_or, leb, ◌==◌, if◌then◌else◌,
}
use meanwhile.Buffer.Opaque.{Opaque, opaque_empty, opaque_bytes, block}
use meanwhile.Buffer.Put.{Put, ◌>>◌, skip, put_if, poke, take_rem, ensure_buffer, append_bytes}
use meanwhile.Buffer.Get.{
  GetBuffer, Get, ◌>>=◌, pure, unless_error, checked, branch, fetch, drop_rem, read_bytes,
}

-- MW16_PUT and MW32_PUT: shifts and masks by powers of two are quotients and remainders.
unfoldable pub mw16_put : ℕ → Put
mw16_put val = do poke (val / 2 ^ 8 % 256); poke (val % 256)

unfoldable pub mw32_put : ℕ → Put
mw32_put val = do
  poke (val / 2 ^ 24 % 256)
  poke (val / 2 ^ 16 % 256)
  poke (val / 2 ^ 8 % 256)
  poke (val % 256)

-- MW16_GET and MW32_GET: the or of disjoint bits is their sum.
abbrev pub from16 : ℕ → ℕ → ℕ
from16 a b = a % 256 * 2 ^ 8 + b % 256

abbrev pub from32 : ℕ → ℕ → ℕ → ℕ → ℕ
from32 a b c d = a % 256 * 2 ^ 24 + b % 256 * 2 ^ 16 + c % 256 * 2 ^ 8 + d % 256

unfoldable pub mw16_get : Get ℕ
mw16_get = do a ← fetch; b ← fetch; pure (from16 a b)

unfoldable pub mw32_get : Get ℕ
mw32_get = do a ← fetch; b ← fetch; c ← fetch; d ← fetch; pure (from32 a b c d)

unfoldable pub guint16_put : ℕ → Put
guint16_put val = do ensure_buffer 2; mw16_put val; take_rem 2

-- `old` is what the target holds, and keeps after an error.
unfoldable pub guint16_get : ℕ → Get ℕ
guint16_get old = unless_error old (checked 2 old (mw16_get >>= drop_rem 2))

unfoldable pub guint16_peek : GetBuffer → ℕ
guint16_peek b = if leb 2 b.rem then from16 (get_or b.buf 0 0) (get_or b.buf 1 0) else 0

unfoldable pub guint32_put : ℕ → Put
guint32_put val = do ensure_buffer 4; mw32_put val; take_rem 4

unfoldable pub guint32_get : ℕ → Get ℕ
guint32_get old = unless_error old (checked 4 old (mw32_get >>= drop_rem 4))

unfoldable pub guint32_peek : GetBuffer → ℕ
guint32_peek b =
    if leb 4 b.rem
    then from32 (get_or b.buf 0 0) (get_or b.buf 1 0) (get_or b.buf 2 0) (get_or b.buf 3 0)
    else 0

abbrev pub bool_byte : Bool → ℕ
bool_byte true = 1
bool_byte false = 0

-- !! of a byte
abbrev pub byte_bool : ℕ → Bool
byte_bool v = not (v == 0)

unfoldable pub gboolean_put : Bool → Put
gboolean_put val = do ensure_buffer 1; poke (bool_byte val); take_rem 1

unfoldable pub fetch_bool : Get Bool
fetch_bool = do v ← fetch; pure (byte_bool v)

unfoldable pub gboolean_get : Bool → Get Bool
gboolean_get old = unless_error old (checked 1 old (fetch_bool >>= drop_rem 1))

unfoldable pub gboolean_peek : GetBuffer → Bool
gboolean_peek b = if leb 1 b.rem then byte_bool (get_or b.buf b.ptr 0) else false

abbrev pub Str : Type 0
Str = Option (List ℕ)

-- strlen: the bytes before the first zero.
abbrev pub strlen : List ℕ → ℕ
strlen [] = 0
strlen (c ∷ cs) = if c == 0 then 0 else suc (strlen cs)

-- if(val) len = strlen(val);
abbrev pub str_len : Str → ℕ
str_len none = 0
str_len (some cs) = strlen cs

-- The length on the wire is `(guint16) len`, the copy has all `len` bytes.
unfoldable pub string_put : Str → Put
string_put val = do
  guint16_put (str_len val % 2 ^ 16)
  put_if (not (str_len val == 0)) (append_bytes (take (str_len val) (block val)))

-- The block of `len` bytes as a string.
unfoldable pub read_str : ℕ → Get Str
read_str len = do cs ← read_bytes len; pure (some cs)

-- `*val = NULL` comes first, so the old value is gone also after an error.
unfoldable pub string_get : Get Str
string_get =
    unless_error none
      do len ← guint16_get 0; checked len none (branch (len == 0) (pure none) (read_str len))

abbrev pub is_null {ℓ} : {A : Type ℓ} → Option A → Bool
is_null none = true
is_null (some a) = false

-- The argument is NULL or points to an opaque. An opaque with a length and no data writes nothing.
unfoldable pub opaque_put : Option Opaque → Put
opaque_put none = guint32_put 0
opaque_put (some o) =
    put_if (o.len == 0 || not (is_null o.data_))
      do guint32_put (o.len % 2 ^ 32); put_if (not (o.len == 0)) (append_bytes (opaque_bytes o))

-- g_memdup of the `len` bytes that come.
unfoldable pub read_opaque : ℕ → Get Opaque
read_opaque len = do bytes ← read_bytes len; pure (record { len = len; data_ = some bytes })

unfoldable pub opaque_get : Get Opaque
opaque_get = unless_error opaque_empty do
  len ← guint32_get 0
  checked len opaque_empty (branch (len == 0) (pure opaque_empty) (read_opaque len))

abbrev pub opaque_clear : Opaque → Opaque
opaque_clear o = opaque_empty

-- mwOpaque_clone; `from` is NULL or points to an opaque.
unfoldable pub opaque_clone : Option Opaque → Opaque
opaque_clone none = opaque_empty
opaque_clone (some o) =
    if o.len == 0 then opaque_empty else record { len = o.len; data_ = some (opaque_bytes o) }
