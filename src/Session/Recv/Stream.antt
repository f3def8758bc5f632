-- ===== src/Session/Recv/Stream.antt =====
-- What a session promises of the bytes that it receives: they are a stream, and how it is cut into
-- pieces does not matter. The promise is a machine that takes one byte at a time.
use meanwhile.Base.{ℕ, ◌+◌, ◌%◌, List, [], ◌∷◌, ◌++◌, drop, length, leb, ltb, ◌==◌, if◌then◌else◌}
use meanwhile.Basic.{from32}

-- The length in the first four bytes.
abbrev pub size_of : List ℕ → ℕ
size_of (x0 ∷ x1 ∷ x2 ∷ x3 ∷ p) = from32 x0 x1 x2 x3
size_of _ = 0

module _ {W : Type 0} (handle : List ℕ → W → W) where
  -- With `p` of a message there, one byte more: a message that is whole and not empty is handled.
  unfoldable pub finish : List ℕ → W → List ℕ × W
  finish p w =
      if ltb (length p) 4
      then (p, w)
      else if size_of p == 0
      then ([], w)
      else if length p == size_of p + 4
      then ([], handle (drop 4 p) w)
      else (p, w)

  -- In front of a message, bytes of 128 and more are passed over.
  unfoldable pub feed : List ℕ → W → ℕ → List ℕ × W
  feed [] w c = if leb 128 (c % 256) then ([], w) else finish (c ∷ []) w
  feed (x ∷ p) w c = finish ((x ∷ p) ++ (c ∷ [])) w

  unfoldable pub feed_all : List ℕ → W → List ℕ → List ℕ × W
  feed_all p w [] = (p, w)
  feed_all p w (c ∷ b) = let r = feed p w c in feed_all r.0 r.1 b
