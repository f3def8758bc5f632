-- ===== src/Cipher/Block.antt =====
-- mwEncryptBlock and mwDecryptBlock of src/cipher.c. An int is its 32 bits as a number; where the
-- source shifts or adds past them, it wraps around, as the compilers do.
pub mod Laws
use Prim.Native.Nat.{bit_and, bit_xor}
use meanwhile.Base.{
  ℕ, zero, suc, ◌+◌, ◌-◌, ◌*◌, ◌/◌, ◌%◌, ◌^◌, Bool, ◌||◌, List, [], ◌∷◌, get_or, ◌==◌,
  if◌then◌else◌,
}

-- The four words of a block.
pub record Words : Type 0 where
  pub a : ℕ
  pub b : ℕ
  pub c : ℕ
  pub d : ℕ

abbrev pub add32 : ℕ → ℕ → ℕ
add32 x y = (x + y) % 2 ^ 32

abbrev pub sub32 : ℕ → ℕ → ℕ
sub32 x y = (x + (2 ^ 32 - y % 2 ^ 32)) % 2 ^ 32

-- (x << n) | (x >> (16 - n) & (2 ^ n - 1)); the two have no bit in common
abbrev pub rotate : ℕ → ℕ → ℕ
rotate n x = x * 2 ^ n % 2 ^ 32 + x / 2 ^ (16 - n) % 2 ^ n

-- (z & (x ^ 0xffff)) + (y & x) + k
unfoldable pub mixed : ℕ → ℕ → ℕ → ℕ → ℕ
mixed x y z k = add32 (add32 (bit_and z (bit_xor x 0xffff)) (bit_and y x)) k

-- One round with the four key words at `j`.
unfoldable pub mix : List ℕ → ℕ → Words → Words
mix ekey j s =
    let d = rotate 1 (add32 s.d (mixed s.a s.b s.c (get_or ekey j 0))) in
    let c = rotate 2 (add32 s.c (mixed d s.a s.b (get_or ekey (j + 1) 0))) in
    let b = rotate 3 (add32 s.b (mixed c d s.a (get_or ekey (j + 2) 0))) in
    let a = rotate 5 (add32 s.a (mixed b c d (get_or ekey (j + 3) 0))) in
    record { a = a; b = b; c = c; d = d }

-- ekey[x & 0x003f]
abbrev pub key_at : List ℕ → ℕ → ℕ
key_at ekey x = get_or ekey (x % 64) 0

unfoldable pub mash : List ℕ → Words → Words
mash ekey s =
    let d = add32 s.d (key_at ekey s.a) in
    let c = add32 s.c (key_at ekey d) in
    let b = add32 s.b (key_at ekey c) in
    let a = add32 s.a (key_at ekey b) in record { a = a; b = b; c = c; d = d }

unfoldable pub unmix : List ℕ → ℕ → Words → Words
unmix ekey j s =
    let a = sub32 (rotate 11 s.a) (mixed s.b s.c s.d (get_or ekey (j + 3) 0)) in
    let b = sub32 (rotate 13 s.b) (mixed s.c s.d a (get_or ekey (j + 2) 0)) in
    let c = sub32 (rotate 14 s.c) (mixed s.d a b (get_or ekey (j + 1) 0)) in
    let d = sub32 (rotate 15 s.d) (mixed a b c (get_or ekey j 0)) in
    record { a = a; b = b; c = c; d = d }

unfoldable pub unmash : List ℕ → Words → Words
unmash ekey s =
    let a = sub32 s.a (key_at ekey s.b) in
    let b = sub32 s.b (key_at ekey s.c) in
    let c = sub32 s.c (key_at ekey s.d) in
    let d = sub32 s.d (key_at ekey a) in record { a = a; b = b; c = c; d = d }

-- if(i == 4 || i == 10)
unfoldable pub mash_after : List ℕ → ℕ → Words → Words
mash_after ekey i s = if (i == 4) || (i == 10) then mash ekey s else s

-- if(i == 5 || i == 11)
unfoldable pub unmash_after : List ℕ → ℕ → Words → Words
unmash_after ekey i s = if (i == 5) || (i == 11) then unmash ekey s else s

-- The first `n` rounds of for(i = 0; i < 16; i++).
unfoldable pub encrypt_rounds : List ℕ → ℕ → Words → Words
encrypt_rounds ekey zero s = s
encrypt_rounds ekey (suc i) s = mash_after ekey i (mix ekey (i * 4) (encrypt_rounds ekey i s))

-- for(i = n; i--; )
unfoldable pub decrypt_rounds : List ℕ → ℕ → Words → Words
decrypt_rounds ekey zero s = s
decrypt_rounds ekey (suc i) s = decrypt_rounds ekey i (unmash_after ekey i (unmix ekey (i * 4) s))

-- a = (out[7] << 8) | (out[6] & 0xff) and so on, for the eight bytes at `out`
unfoldable pub words_of : List ℕ → Words
words_of out = record {
  a = get_or out 7 0 * 2 ^ 8 + get_or out 6 0 % 256;
  b = get_or out 5 0 * 2 ^ 8 + get_or out 4 0 % 256;
  c = get_or out 3 0 * 2 ^ 8 + get_or out 2 0 % 256;
  d = get_or out 1 0 * 2 ^ 8 + get_or out 0 0 % 256;
}

-- The stores behind the rounds.
unfoldable pub bytes_of_words : Words → List ℕ
bytes_of_words s =
    s.d % 256
    ∷ s.d / 2 ^ 8 % 256
    ∷ s.c % 256
    ∷ s.c / 2 ^ 8 % 256
    ∷ s.b % 256
    ∷ s.b / 2 ^ 8 % 256
    ∷ s.a % 256
    ∷ s.a / 2 ^ 8 % 256
    ∷ []

unfoldable pub encrypt_block : List ℕ → List ℕ → List ℕ
encrypt_block ekey out = bytes_of_words (encrypt_rounds ekey 16 (words_of out))

unfoldable pub decrypt_block : List ℕ → List ℕ → List ℕ
decrypt_block ekey out = bytes_of_words (decrypt_rounds ekey 16 (words_of out))
