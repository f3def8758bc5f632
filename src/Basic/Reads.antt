-- ===== src/Basic/Reads.antt =====
-- The readers of the basic types take the wire format off the front of the input, and give back
-- the value.
use meanwhile.Base.{
  ℕ, ◌/◌, ◌%◌, ◌^◌, ◌<◌, ◌≡◌, refl, Bool, true, false, none, some, List, [], ◌∷◌, length, ◌==◌,
  arith, suc_not_zero,
}
use mathlib.Core.Path.{subst}
use meanwhile.Buffer.Opaque.{Opaque, opaque_bytes, opaque_of}
use meanwhile.Buffer.Get.{pure, checked, branch}
use meanwhile.Buffer.Get.Laws.{
  Reads, Reads->>=, Reads-end, Fetches, Fetches->>=, pure-Reads, pure-Fetches, fetch-Fetches,
  fetch-Reads, unless_error-Reads, checked-Reads, branch-true-Reads, branch-false-Reads,
  read_bytes-Reads,
}
use meanwhile.Basic.{
  Str, from16, from32, mw16_get, mw32_get, guint16_get, guint32_get, fetch_bool, gboolean_get,
  read_str, string_get, read_opaque, opaque_get,
}
use meanwhile.Basic.Wire.{
  wire16, wire32, wire_bool, wire_str, wire_opaque, text, str_of, IsWord16, IsWord32, IsStr,
  IsOpaque,
}

pub from16-wire16 : (v : ℕ) → IsWord16 v → from16 (v / 2 ^ 8 % 256) (v % 256) ≡ v
from16-wire16 v h = omega arith

from32-wire32 :
    (v : ℕ)
    → IsWord32 v
    → from32 (v / 2 ^ 24 % 256) (v / 2 ^ 16 % 256) (v / 2 ^ 8 % 256) (v % 256) ≡ v
from32-wire32 v h = omega arith

mw16_get-Fetches : (a b : ℕ) → Fetches mw16_get (a ∷ b ∷ []) (from16 a b)
unfolding mw16_get
mw16_get-Fetches a b =
    Fetches->>= _ (fetch-Fetches a) (Fetches->>= _ (fetch-Fetches b) (pure-Fetches (from16 a b)))

mw32_get-Fetches : (a b c d : ℕ) → Fetches mw32_get (a ∷ b ∷ c ∷ d ∷ []) (from32 a b c d)
unfolding mw32_get
mw32_get-Fetches a b c d = Fetches->>= _ (fetch-Fetches a) (
    Fetches->>= _ (fetch-Fetches b) (
      Fetches->>= _ (fetch-Fetches c)
        (Fetches->>= _ (fetch-Fetches d) (pure-Fetches (from32 a b c d)))))

pub guint16_get-Reads : (old v : ℕ) → IsWord16 v → Reads (guint16_get old) (wire16 v) v
unfolding guint16_get wire16
guint16_get-Reads old v h = unless_error-Reads old (
    checked-Reads 2 old refl (
      fetch-Reads 2 refl
        (subst (Fetches mw16_get (wire16 v)) (from16-wire16 v h) (mw16_get-Fetches _ _))))

pub guint32_get-Reads : (old v : ℕ) → IsWord32 v → Reads (guint32_get old) (wire32 v) v
unfolding guint32_get wire32
guint32_get-Reads old v h = unless_error-Reads old (
    checked-Reads 4 old refl (
      fetch-Reads 4 refl
        (subst (Fetches mw32_get (wire32 v)) (from32-wire32 v h) (mw32_get-Fetches _ _ _ _))))

fetch_bool-Fetches : (v : Bool) → Fetches fetch_bool (wire_bool v) v
unfolding fetch_bool wire_bool
fetch_bool-Fetches true = Fetches->>= _ (fetch-Fetches 1) (pure-Fetches true)
fetch_bool-Fetches false = Fetches->>= _ (fetch-Fetches 0) (pure-Fetches false)

pub gboolean_get-Reads : (old v : Bool) → Reads (gboolean_get old) (wire_bool v) v
unfolding gboolean_get wire_bool
gboolean_get-Reads old v =
    unless_error-Reads old (checked-Reads 1 old refl (fetch-Reads 1 refl (fetch_bool-Fetches v)))

-- The rest of a reader behind its length field.
pub str_rest :
    (xs : List ℕ)
    → Reads
        (checked (length xs) none (branch (length xs == 0) (pure none) (read_str (length xs))))
        xs
        (str_of xs)
unfolding read_str
str_rest [] = checked-Reads 0 none refl (branch-true-Reads _ refl (pure-Reads none))
str_rest (x ∷ xs) = checked-Reads _ none refl (
    branch-false-Reads _ (suc_not_zero (length xs))
      (Reads-end _ (read_bytes-Reads (x ∷ xs)) (pure-Reads (some (x ∷ xs)))))

-- mwString_get takes exactly the wire format of a string with a text (what is before the first
-- zero) of fewer than 2 ^ 16 bytes and gives the text, which is NULL if it is empty.
pub string_get-text :
    (s : Str) → length (text s) < 2 ^ 16 → Reads string_get (wire_str s) (str_of (text s))
unfolding string_get wire_str
string_get-text s h =
    let e : length (text s) % 2 ^ 16 ≡ length (text s) = omega arith in
    unless_error-Reads none
      (rw e (Reads->>= _ (guint16_get-Reads 0 (length (text s)) h) (str_rest (text s))))

pub string_get-Reads : (s : Str) → IsStr s → Reads string_get (wire_str s) s
string_get-Reads s h = subst (Reads string_get (wire_str s)) h.plain (string_get-text s h.short)

opaque_rest :
    (xs : List ℕ)
    → Reads
        (checked
          (length xs)
          (opaque_of [])
          (branch (length xs == 0) (pure (opaque_of [])) (read_opaque (length xs))))
        xs
        (opaque_of xs)
unfolding read_opaque
opaque_rest [] = checked-Reads 0 _ refl (branch-true-Reads _ refl (pure-Reads _))
opaque_rest (x ∷ xs) = checked-Reads _ _ refl (
    branch-false-Reads _ (suc_not_zero (length xs))
      (Reads-end _ (read_bytes-Reads (x ∷ xs)) (pure-Reads (opaque_of (x ∷ xs)))))

-- mwOpaque_get takes exactly the wire format of fewer than 2 ^ 32 bytes and gives these bytes.
pub opaque_get-bytes :
    (bytes : List ℕ)
    → length bytes < 2 ^ 32
    → Reads opaque_get (wire_opaque bytes) (opaque_of bytes)
unfolding opaque_get wire_opaque
opaque_get-bytes bytes h =
    let e : length bytes % 2 ^ 32 ≡ length bytes = omega arith in
    unless_error-Reads (opaque_of [])
      (rw e (Reads->>= _ (guint32_get-Reads 0 (length bytes) h) (opaque_rest bytes)))

pub opaque_get-Reads : (o : Opaque) → IsOpaque o → Reads opaque_get (wire_opaque (opaque_bytes o)) o
opaque_get-Reads o h =
    subst (Reads opaque_get (wire_opaque (opaque_bytes o))) h.plain
      (opaque_get-bytes (opaque_bytes o) h.short)
