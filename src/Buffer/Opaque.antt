-- ===== src/Buffer/Opaque.antt =====
-- struct mwOpaque of src/mw_common.h: a length and a pointer to that many bytes, or NULL.
use meanwhile.Base.{ℕ, ◌≡◌, refl, Option, none, some, List, [], ◌∷◌, length, take, take_all}

pub record Opaque : Type 0 where
  pub len : ℕ
  pub data_ : Option (List ℕ)

abbrev pub block : Option (List ℕ) → List ℕ
block none = []
block (some xs) = xs

-- The `len` bytes behind the pointer.
abbrev pub opaque_bytes : Opaque → List ℕ
opaque_bytes o = take o.len (block o.data_)

abbrev pub opaque_empty : Opaque
opaque_empty = record { len = 0; data_ = none }

-- g_memdup of at least one byte, or NULL.
abbrev pub opaque_of : List ℕ → Opaque
opaque_of [] = opaque_empty
opaque_of (x ∷ xs) = record { len = length (x ∷ xs); data_ = some (x ∷ xs) }

pub opaque_bytes-opaque_of : (xs : List ℕ) → opaque_bytes (opaque_of xs) ≡ xs
opaque_bytes-opaque_of [] = refl
opaque_bytes-opaque_of (x ∷ xs) = take_all (x ∷ xs)

pub len-opaque_of : (xs : List ℕ) → (opaque_of xs).len ≡ length xs
len-opaque_of [] = refl
len-opaque_of (x ∷ xs) = refl
