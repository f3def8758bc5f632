-- ===== src/Basic/Wire.antt =====
-- The wire format of the basic types.
use meanwhile.Base.{ℕ, ◌/◌, ◌%◌, ◌^◌, ◌<◌, ◌≡◌, Bool, none, some, List, [], ◌∷◌, ◌++◌, take, length}
use meanwhile.Buffer.Opaque.{Opaque, opaque_bytes, opaque_of, block}
use meanwhile.Basic.{Str, str_len, bool_byte}

-- Big-endian.
unfoldable pub wire16 : ℕ → List ℕ
wire16 v = v / 2 ^ 8 % 256 ∷ v % 256 ∷ []

unfoldable pub wire32 : ℕ → List ℕ
wire32 v = v / 2 ^ 24 % 256 ∷ v / 2 ^ 16 % 256 ∷ v / 2 ^ 8 % 256 ∷ v % 256 ∷ []

unfoldable pub wire_bool : Bool → List ℕ
wire_bool v = bool_byte v ∷ []

-- The text of a string: what lies before its first zero.
abbrev pub text : Str → List ℕ
text s = take (str_len s) (block s)

unfoldable pub wire_str : Str → List ℕ
wire_str s = wire16 (length (text s) % 2 ^ 16) ++ text s

unfoldable pub wire_opaque : List ℕ → List ℕ
wire_opaque bytes = wire32 (length bytes % 2 ^ 32) ++ bytes

abbrev pub IsWord16 : ℕ → Type 0
IsWord16 v = v < 2 ^ 16

abbrev pub IsWord32 : ℕ → Type 0
IsWord32 v = v < 2 ^ 32

-- The string that a reader makes of a text.
abbrev pub str_of : List ℕ → Str
str_of [] = none
str_of (c ∷ cs) = some (c ∷ cs)

-- A string as the readers make them: NULL or a text that is not empty, and short enough for its
-- length field.
pub record IsStr (s : Str) : Type 0 where
  pub plain : str_of (text s) ≡ s
  pub short : length (text s) < 2 ^ 16

-- An opaque as the readers make them.
pub record IsOpaque (o : Opaque) : Type 0 where
  pub plain : opaque_of (opaque_bytes o) ≡ o
  pub short : length (opaque_bytes o) < 2 ^ 32
