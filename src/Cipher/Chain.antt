-- ===== src/Cipher/Chain.antt =====
-- mwEncryptExpanded and mwDecryptExpanded of src/cipher.c: padding, and chaining of the blocks.
pub mod Laws
pub mod Stream
use Prim.Native.Nat.{bit_xor}
use meanwhile.Base.{
  ℕ, zero, suc, ◌+◌, ◌-◌, ◌*◌, ◌/◌, ◌%◌, some, List, [], ◌∷◌, ◌++◌, take, drop, length, replicate,
  get_or, gsize_sub,
}
use meanwhile.Buffer.Opaque.{Opaque, opaque_bytes}
use meanwhile.Cipher.Key.{key_expand}
use meanwhile.Cipher.Block.{encrypt_block, decrypt_block}

-- for(y = 8; y--; o[y] ^= iv[y]);
unfoldable pub xor_bytes : List ℕ → List ℕ → List ℕ
xor_bytes [] iv = []
xor_bytes (x ∷ xs) [] = x ∷ xs
xor_bytes (x ∷ xs) (v ∷ iv) = bit_xor x v ∷ xor_bytes xs iv

-- The loop over `n` blocks: the last value of `iv`, and the bytes at `o`.
unfoldable pub encrypt_blocks : List ℕ → ℕ → List ℕ → List ℕ → List ℕ × List ℕ
encrypt_blocks ekey zero iv o = (iv, [])
encrypt_blocks ekey (suc n) iv o =
    let block = encrypt_block ekey (xor_bytes (take 8 o) iv) in
    let rest = encrypt_blocks ekey n block (drop 8 o) in (rest.0, block ++ rest.1)

unfoldable pub decrypt_blocks : List ℕ → ℕ → List ℕ → List ℕ → List ℕ × List ℕ
decrypt_blocks ekey zero iv i = (iv, [])
decrypt_blocks ekey (suc n) iv i =
    let block = xor_bytes (decrypt_block ekey (take 8 i)) iv in
    let rest = decrypt_blocks ekey n (take 8 i) (drop 8 i) in (rest.0, block ++ rest.1)

-- The count of padding bytes, which is also their value.
abbrev pub padding : ℕ → ℕ
padding i_len = 8 - i_len % 8

-- in_data with the padding behind it
abbrev pub padded : List ℕ → List ℕ
padded bytes = bytes ++ replicate (padding (length bytes)) (padding (length bytes))

-- mwEncryptExpanded: the new `iv`, and out_data. The counters of the source are of type int, so this
-- stands for data of fewer than 2 ^ 31 - 8 bytes.
unfoldable pub encrypt_expanded : List ℕ → List ℕ → Opaque → List ℕ × Opaque
encrypt_expanded ekey iv in_data =
    let o_len = in_data.len + padding in_data.len in
    let out = encrypt_blocks ekey (o_len / 8) iv (padded (opaque_bytes in_data)) in
    (out.0, record { len = o_len; data_ = some out.1 })

-- mwDecryptExpanded: the same. The loop runs on as long as bytes are left, and the length is
-- shortened by the byte in front of where it stops, which for data of no bytes is none of them;
-- the model takes 0 for it.
unfoldable pub decrypt_expanded : List ℕ → List ℕ → Opaque → List ℕ × Opaque
decrypt_expanded ekey iv in_data =
    let n = (in_data.len + 7) / 8 in
    let out = decrypt_blocks ekey n iv (opaque_bytes in_data) in
    (out.0, record { len = gsize_sub in_data.len (get_or out.1 (n * 8 - 1) 0); data_ = some out.1 })

-- mwEncrypt and mwDecrypt
unfoldable pub encrypt : List ℕ → List ℕ → Opaque → List ℕ × Opaque
encrypt key iv in_data = encrypt_expanded (key_expand key) iv in_data

unfoldable pub decrypt : List ℕ → List ℕ → Opaque → List ℕ × Opaque
decrypt key iv in_data = decrypt_expanded (key_expand key) iv in_data
