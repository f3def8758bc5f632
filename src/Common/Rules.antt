-- ===== src/Common/Rules.antt =====
-- The sets of rules by which `search` follows a writer or a reader, and g_strdup.
use meanwhile.Base.{ℕ, ◌≡◌, refl, Bool, true, false, none, some, List, [], take}
use meanwhile.Buffer.Put.Laws.{Writes->>, skip-Writes, put_if-Writes, bytes_if}
use mathlib.Core.Path.{subst}
use meanwhile.Buffer.Get.{Get, branch, pure}
use meanwhile.Buffer.Get.Laws.{Reads, branch-true-Reads, branch-false-Reads, pure-Reads}
use meanwhile.Buffer.Get.Safe.{IsReader->>=, pure-IsReader, unless_error-IsReader, branch-IsReader}
use meanwhile.Basic.{Str, strlen}
use meanwhile.Basic.Writes.{
  guint16_put-Writes, guint32_put-Writes, gboolean_put-Writes, string_put-Writes, opaque_put-Writes,
}
use meanwhile.Basic.Safe.{
  guint16_get-IsReader, guint32_get-IsReader, gboolean_get-IsReader, string_get-IsReader,
  opaque_get-IsReader,
}

pub ruleset writers = (
  Writes->>, skip-Writes, put_if-Writes, guint16_put-Writes, guint32_put-Writes,
  gboolean_put-Writes, string_put-Writes, opaque_put-Writes,
)

pub ruleset safe_readers = (
  IsReader->>=, pure-IsReader, unless_error-IsReader, branch-IsReader, guint16_get-IsReader,
  guint32_get-IsReader, gboolean_get-IsReader, string_get-IsReader, opaque_get-IsReader,
)

-- An optional part: the flag that was read decides as the flag that was written.
pub branch-Reads :
    {A : Type 0} {m k : Get A} (c : Bool) {bytes : List ℕ} {a : A}
    → (c ≡ true → Reads m bytes a)
    → (c ≡ false → Reads k [] a)
    → Reads (branch c m k) (bytes_if c bytes) a
branch-Reads true rm rk = branch-true-Reads _ refl (rm refl)
branch-Reads false rm rk = branch-false-Reads _ refl (rk refl)

pub pure_eq-Reads : {A : Type 0} {a c : A} → a ≡ c → Reads (pure a) [] c
pure_eq-Reads {a = a} e = subst (Reads (pure a) []) e (pure-Reads a)

-- g_strdup copies up to the first zero.
abbrev pub strdup : Str → Str
strdup none = none
strdup (some cs) = some (take (strlen cs) cs)
