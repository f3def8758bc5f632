-- ===== src/Cipher/Key/Laws.antt =====
-- What a key is expanded to.
use meanwhile.Base.{
  ℕ, zero, suc, ◌+◌, ◌-◌, ◌*◌, ◌%◌, ◌^◌, ◌<◌, ◌≡◌, refl, arith, List, [], ◌∷◌, ◌++◌, take, length,
  get_or, set, ltb, Bool, true, ◌&&◌, All, length-append, length-take, All-take, All-append,
}
use meanwhile.Cipher.Block.Laws.{IsByte}
use meanwhile.Cipher.Key.{pt_table, pt, key_stretch, key_words, key_expand}

All-get_or : (i d : ℕ) (xs : List ℕ) → All IsByte xs → IsByte d → IsByte (get_or xs i d)
All-get_or i d [] h k = k
All-get_or zero d (x ∷ xs) h k = h.0
All-get_or (suc i) d (x ∷ xs) h k = All-get_or i d xs h.1 k

All-set : (i v : ℕ) (xs : List ℕ) → All IsByte xs → IsByte v → All IsByte (set xs i v)
All-set i v [] h k = tt
All-set zero v (x ∷ xs) h k = (k, h.1)
All-set (suc i) v (x ∷ xs) h k = (h.0, All-set i v xs h.1 k)

length-set : (i v : ℕ) (xs : List ℕ) → length (set xs i v) ≡ length xs
length-set i v [] = refl
length-set zero v (x ∷ xs) = refl
length-set (suc i) v (x ∷ xs) = omega (arith, length-set i v xs)

all_bytes : List ℕ → Bool
all_bytes [] = true
all_bytes (x ∷ xs) = ltb x (2 ^ 8) && all_bytes xs

all_bytes_sound : (xs : List ℕ) → all_bytes xs ≡ true → All IsByte xs
unfolding all_bytes
all_bytes_sound [] h = tt
all_bytes_sound (x ∷ xs) h = (ground arith, all_bytes_sound xs (ground arith))

pt-IsByte : (i : ℕ) → IsByte (pt i)
unfolding all_bytes
pt-IsByte i = All-get_or (i % 256) 0 pt_table (all_bytes_sound pt_table refl) (omega arith)

length-key_stretch : (n i : ℕ) (tmp : List ℕ) → length (key_stretch n i tmp) ≡ length tmp + n
unfolding key_stretch
length-key_stretch zero i tmp = omega arith
length-key_stretch (suc n) i tmp =
    let b = pt (get_or tmp (length tmp - 1) 0 + get_or tmp i 0) in
    omega (arith, length-key_stretch n (suc i) (tmp ++ (b ∷ [])), length-append tmp (b ∷ []))

key_stretch-IsByte : (n i : ℕ) (tmp : List ℕ) → All IsByte tmp → All IsByte (key_stretch n i tmp)
unfolding key_stretch
key_stretch-IsByte zero i tmp h = h
key_stretch-IsByte (suc n) i tmp h =
    let b = pt (get_or tmp (length tmp - 1) 0 + get_or tmp i 0) in
    key_stretch-IsByte n (suc i) (tmp ++ (b ∷ [])) (
      All-append IsByte tmp (b ∷ []) h
        (pt-IsByte (get_or tmp (length tmp - 1) 0 + get_or tmp i 0), tt))

-- A word of the expanded key.
abbrev pub IsKeyWord : ℕ → Type 0
IsKeyWord w = w < 2 ^ 16

key_words-IsKeyWord :
    (n : ℕ) (tmp : List ℕ)
    → length tmp ≡ n * 2
    → All IsByte tmp
    → (length (key_words tmp) ≡ n) × All IsKeyWord (key_words tmp)
unfolding key_words
key_words-IsKeyWord zero [] e h = (refl, tt)
key_words-IsKeyWord (suc n) (lo ∷ hi ∷ tmp) e h =
    let rest = key_words-IsKeyWord n tmp (omega arith) h.1.1 in
    (omega (arith, rest.0), (omega (arith, h.0, h.1.0), rest.1))
key_words-IsKeyWord zero (x ∷ tmp) e h = absurd (omega arith)
key_words-IsKeyWord (suc n) [] e h = absurd (omega arith)
key_words-IsKeyWord (suc n) (x ∷ []) e h = absurd (omega arith)

-- mwKeyExpand gives 64 words below 2 ^ 16, for every key of bytes.
pub key_expand-IsKeyWord :
    (key : List ℕ)
    → All IsByte key
    → (length (key_expand key) ≡ 64) × All IsKeyWord (key_expand key)
unfolding key_expand
key_expand-IsKeyWord key h =
    let tmp = take 128 key in
    let full = key_stretch (128 - length tmp) 0 tmp in
    let first = pt (get_or full 0 0) in
    key_words-IsKeyWord 64 (set full 0 first)
      (omega (
        arith,
        length-set 0 first full,
        length-key_stretch (128 - length tmp) 0 tmp,
        length-take 128 key,
      ))
      (All-set 0 first full
        (key_stretch-IsByte (128 - length tmp) 0 tmp (All-take IsByte 128 key h))
        (pt-IsByte (get_or full 0 0)))
