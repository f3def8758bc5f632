-- ===== src/Basic/Safe.antt =====
-- The readers of the basic types on any input.
use meanwhile.Base.{ℕ, arith, Bool, none, ◌==◌}
use meanwhile.Buffer.Opaque.{opaque_empty}
use meanwhile.Buffer.Get.{◌>>=◌, pure, branch, fetch, drop_rem, copy_out, read_bytes}
use meanwhile.Buffer.Get.Safe.{
  Jumps, IsReader, IsReader->>=, checked-IsReader, unless_error-IsReader,
}
use meanwhile.Basic.{
  mw16_get, mw32_get, fetch_bool, guint16_get, guint32_get, gboolean_get, read_str, string_get,
  read_opaque, opaque_get,
}

guint16_get-Jumps : Jumps (mw16_get >>= drop_rem 2) 2
unfolding ◌>>=◌ drop_rem mw16_get pure fetch
guint16_get-Jumps = record { run = λ b. ground arith }

guint32_get-Jumps : Jumps (mw32_get >>= drop_rem 4) 4
unfolding ◌>>=◌ drop_rem mw32_get pure fetch
guint32_get-Jumps = record { run = λ b. ground arith }

gboolean_get-Jumps : Jumps (fetch_bool >>= drop_rem 1) 1
unfolding ◌>>=◌ drop_rem fetch_bool pure fetch
gboolean_get-Jumps = record { run = λ b. ground arith }

str_rest-Jumps : (n : ℕ) → Jumps (branch (n == 0) (pure none) (read_str n)) n
unfolding ◌>>=◌ drop_rem read_str read_bytes copy_out pure branch
str_rest-Jumps n = record { run = λ b. ground arith }

opaque_rest-Jumps : (n : ℕ) → Jumps (branch (n == 0) (pure opaque_empty) (read_opaque n)) n
unfolding ◌>>=◌ drop_rem read_opaque read_bytes copy_out pure branch
opaque_rest-Jumps n = record { run = λ b. ground arith }

pub guint16_get-IsReader : (old : ℕ) → IsReader (guint16_get old)
unfolding guint16_get
guint16_get-IsReader old = unless_error-IsReader old (checked-IsReader old guint16_get-Jumps)

pub guint32_get-IsReader : (old : ℕ) → IsReader (guint32_get old)
unfolding guint32_get
guint32_get-IsReader old = unless_error-IsReader old (checked-IsReader old guint32_get-Jumps)

pub gboolean_get-IsReader : (old : Bool) → IsReader (gboolean_get old)
unfolding gboolean_get
gboolean_get-IsReader old = unless_error-IsReader old (checked-IsReader old gboolean_get-Jumps)

pub string_get-IsReader : IsReader string_get
unfolding string_get
string_get-IsReader =
    unless_error-IsReader none
      (IsReader->>= _ (guint16_get-IsReader 0) (λ n. checked-IsReader none (str_rest-Jumps n)))

pub opaque_get-IsReader : IsReader opaque_get
unfolding opaque_get
opaque_get-IsReader = unless_error-IsReader opaque_empty (
    IsReader->>= _ (guint32_get-IsReader 0)
      (λ n. checked-IsReader opaque_empty (opaque_rest-Jumps n)))
