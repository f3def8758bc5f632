-- ===== src/Cipher/Chain/Laws.antt =====
-- Decryption of data undoes its encryption, and both leave the same chaining value.
use meanwhile.Base.{
  ℕ, zero, suc, ◌+◌, ◌-◌, ◌*◌, ◌/◌, ◌%◌, ◌^◌, ◌≤◌, ◌<◌, ◌≡◌, refl, sym, ap, arith, some, List, [],
  ◌∷◌, ◌++◌, take, drop, length, replicate, get_or, All, length-append, length-take, length-drop,
  length-replicate, take_all, take-append-drop, take-short, drop-short, get_or_last, All-take,
  All-drop, All-append, All-replicate, gsize_sub,
}
use meanwhile.Base.Bits.{xor_twice, xor-lt}
use meanwhile.Buffer.Opaque.{Opaque, opaque_bytes}
use meanwhile.Cipher.Key.{iv_init}
use meanwhile.Cipher.Block.{encrypt_block, decrypt_block}
use meanwhile.Cipher.Block.Laws.{
  IsByte, decrypt_block-encrypt_block, length-encrypt_block, encrypt_block-IsByte,
}
use meanwhile.Cipher.Chain.{
  xor_bytes, encrypt_blocks, decrypt_blocks, padding, padded, encrypt_expanded, decrypt_expanded,
}

xor_bytes_twice : (xs iv : List ℕ) → xor_bytes (xor_bytes xs iv) iv ≡ xs
unfolding xor_bytes
xor_bytes_twice [] iv = refl
xor_bytes_twice (x ∷ xs) [] = refl
xor_bytes_twice (x ∷ xs) (v ∷ iv) = rw (xor_twice x v, xor_bytes_twice xs iv) refl

length-xor_bytes : (xs iv : List ℕ) → length (xor_bytes xs iv) ≡ length xs
unfolding xor_bytes
length-xor_bytes [] iv = refl
length-xor_bytes (x ∷ xs) [] = refl
length-xor_bytes (x ∷ xs) (v ∷ iv) = ap suc (length-xor_bytes xs iv)

xor_bytes-IsByte : (xs iv : List ℕ) → All IsByte xs → All IsByte iv → All IsByte (xor_bytes xs iv)
unfolding xor_bytes
xor_bytes-IsByte [] iv h k = tt
xor_bytes-IsByte (x ∷ xs) [] h k = h
xor_bytes-IsByte (x ∷ xs) (v ∷ iv) h k = (xor-lt 8 x v h.0 k.0, xor_bytes-IsByte xs iv h.1 k.1)

-- A chaining value: eight bytes.
pub record IsChain (iv : List ℕ) : Type 0 where
  pub eight : length iv ≡ 8
  pub bytes : All IsByte iv

encrypt_block-IsChain : (ekey o : List ℕ) → IsChain (encrypt_block ekey o)
encrypt_block-IsChain ekey o = record {
  eight = length-encrypt_block ekey o;
  bytes = encrypt_block-IsByte ekey o;
}

pub encrypt_blocks-IsChain :
    (ekey : List ℕ) (n : ℕ) (iv o : List ℕ) → IsChain iv → IsChain (encrypt_blocks ekey n iv o).0
unfolding encrypt_blocks
encrypt_blocks-IsChain ekey zero iv o h = h
encrypt_blocks-IsChain ekey (suc n) iv o h =
    encrypt_blocks-IsChain ekey n (encrypt_block ekey (xor_bytes (take 8 o) iv)) (drop 8 o)
      (encrypt_block-IsChain ekey (xor_bytes (take 8 o) iv))

length-encrypt_blocks :
    (ekey : List ℕ) (n : ℕ) (iv o : List ℕ) → length (encrypt_blocks ekey n iv o).1 ≡ n * 8
unfolding encrypt_blocks
length-encrypt_blocks ekey zero iv o = refl
length-encrypt_blocks ekey (suc n) iv o =
    let c = encrypt_block ekey (xor_bytes (take 8 o) iv) in
    omega (
      arith,
      length-append c (encrypt_blocks ekey n c (drop 8 o)).1,
      length-encrypt_block ekey (xor_bytes (take 8 o) iv),
      length-encrypt_blocks ekey n c (drop 8 o),
    )

pub decrypt_blocks-encrypt_blocks :
    (ekey : List ℕ) (n : ℕ) (iv o : List ℕ)
    → length o ≡ n * 8
    → All IsByte o
    → IsChain iv
    → decrypt_blocks ekey n iv (encrypt_blocks ekey n iv o).1 ≡ ((encrypt_blocks ekey n iv o).0, o)
unfolding encrypt_blocks decrypt_blocks
decrypt_blocks-encrypt_blocks ekey zero iv [] e h k = refl
decrypt_blocks-encrypt_blocks ekey zero iv (x ∷ o) e h k = absurd (omega arith)
decrypt_blocks-encrypt_blocks ekey (suc n) iv o e h k =
    let x = xor_bytes (take 8 o) iv in
    let c = encrypt_block ekey x in
    let rest = encrypt_blocks ekey n c (drop 8 o) in
    let eight : length x ≡ 8 = omega (arith, length-xor_bytes (take 8 o) iv, length-take 8 o) in
    let back : decrypt_block ekey c ≡ x =
      decrypt_block-encrypt_block ekey x eight
        (xor_bytes-IsByte (take 8 o) iv (All-take IsByte 8 o h) k.bytes) in
    let first : take 8 (c ++ rest.1) ≡ c = take-short 8 c rest.1 (length-encrypt_block ekey x) in
    let others : drop 8 (c ++ rest.1) ≡ rest.1 =
      drop-short 8 c rest.1 (length-encrypt_block ekey x) in
    let later : decrypt_blocks ekey n c rest.1 ≡ (rest.0, drop 8 o) =
      decrypt_blocks-encrypt_blocks ekey n c (drop 8 o) (omega (arith, length-drop 8 o))
        (All-drop IsByte 8 o h) (encrypt_block-IsChain ekey x) in
    rw (first, others, back, xor_bytes_twice (take 8 o) iv, later, take-append-drop 8 o) refl

-- Data that may be encrypted: an opaque whose bytes are all there and are bytes.
pub record IsData (o : Opaque) : Type 0 where
  pub there : length (opaque_bytes o) ≡ o.len
  pub bytes : All IsByte (opaque_bytes o)
  pub small : o.len < 2 ^ 30

length-padded : (bytes : List ℕ) → length (padded bytes) ≡ length bytes + padding (length bytes)
length-padded bytes = omega (
  arith,
  length-append bytes (replicate (padding (length bytes)) (padding (length bytes))),
  length-replicate {A = ℕ} (padding (length bytes)) (padding (length bytes)),
)

padded_last :
    (bytes : List ℕ) (n : ℕ)
    → n ≡ length bytes + padding (length bytes)
    → get_or (padded bytes) (n - 1) 0 ≡ padding (length bytes)
padded_last bytes n e =
    let p = 7 - length bytes % 8 in
    let one_more : padding (length bytes) ≡ suc p = omega arith in
    let place : n - 1 ≡ length bytes + p = omega arith in
    rw (place, one_more) (get_or_last bytes p (suc p) 0)

padded-IsByte : (bytes : List ℕ) → All IsByte bytes → All IsByte (padded bytes)
padded-IsByte bytes h =
    All-append IsByte bytes (replicate (padding (length bytes)) (padding (length bytes))) h
      (All-replicate IsByte (padding (length bytes)) (padding (length bytes)) (omega arith))

whole_blocks : (m : ℕ) → m * 8 / 8 ≡ m
whole_blocks m = omega arith

whole_blocks_up : (m : ℕ) → (m * 8 + 7) / 8 ≡ m
whole_blocks_up m = omega arith

all_taken : (n : ℕ) (xs : List ℕ) → length xs ≡ n → take n xs ≡ xs
all_taken n xs e = rw (← e) (take_all xs)

-- mwDecryptExpanded of what mwEncryptExpanded makes, with any expanded key and the same chaining
-- value of eight bytes, of fewer than 2 ^ 30 bytes: the data comes back with its length, and both
-- leave the same chaining value.
pub decrypt_expanded-encrypt_expanded :
    (ekey iv : List ℕ) (o : Opaque)
    → IsChain iv
    → IsData o
    → let out = encrypt_expanded ekey iv o in
      let back = decrypt_expanded ekey iv out.1 in
      (back.0 ≡ out.0) × (back.1.len ≡ o.len) × (opaque_bytes back.1 ≡ opaque_bytes o)
unfolding encrypt_expanded decrypt_expanded
decrypt_expanded-encrypt_expanded ekey iv o k h =
    let m = o.len / 8 + 1 in
    let bytes = opaque_bytes o in
    let c = encrypt_blocks ekey m iv (padded bytes) in
    let total : o.len + padding o.len ≡ m * 8 = omega arith in
    let full : length (padded bytes) ≡ m * 8 = omega (arith, length-padded bytes, h.there) in
    let held : opaque_bytes (record { len = m * 8; data_ = some c.1 }) ≡ c.1 =
      all_taken (m * 8) c.1 (length-encrypt_blocks ekey m iv (padded bytes)) in
    let back : decrypt_blocks ekey m iv c.1 ≡ (c.0, padded bytes) =
      decrypt_blocks-encrypt_blocks ekey m iv (padded bytes) full (padded-IsByte bytes h.bytes) k in
    let last : get_or (padded bytes) (m * 8 - 1) 0 ≡ padding (length bytes) =
      padded_last bytes (m * 8) (omega (arith, h.there)) in
    let cut : gsize_sub (m * 8) (padding (length bytes)) ≡ o.len =
      ground (arith, h.there, h.small) in
    let shown : opaque_bytes (record { len = o.len; data_ = some (padded bytes) }) ≡ bytes =
      take-short o.len bytes (replicate (padding (length bytes)) (padding (length bytes)))
        h.there in
    rw (total, whole_blocks m, whole_blocks_up m, held, back, last, cut, shown) (refl, refl, refl)

pub encrypt_expanded-IsChain :
    (ekey iv : List ℕ) (o : Opaque) → IsChain iv → IsChain (encrypt_expanded ekey iv o).0
unfolding encrypt_expanded
encrypt_expanded-IsChain ekey iv o k =
    encrypt_blocks-IsChain ekey ((o.len + padding o.len) / 8) iv (padded (opaque_bytes o)) k

pub iv_init-IsChain : IsChain iv_init
iv_init-IsChain = record {
  eight = refl;
  bytes = (
    omega arith,
    (
      omega arith,
      (omega arith, (omega arith, (omega arith, (omega arith, (omega arith, (omega arith, tt)))))),
    ),
  );
}

-- The encrypted bytes are all there, and at most eight more.
pub encrypt_expanded-len :
    (ekey iv : List ℕ) (o : Opaque)
    → let out = (encrypt_expanded ekey iv o).1 in
      (out.len ≡ length (opaque_bytes out)) × (out.len ≤ o.len + 8)
unfolding encrypt_expanded
encrypt_expanded-len ekey iv o =
    let m = o.len / 8 + 1 in
    let total : o.len + padding o.len ≡ m * 8 = omega arith in
    let long = length-encrypt_blocks ekey m iv (padded (opaque_bytes o)) in
    rw
      (
        total,
        whole_blocks m,
        all_taken (m * 8) (encrypt_blocks ekey m iv (padded (opaque_bytes o))).1 long,
      )
      (sym long, omega arith)

-- Decryption sees only the bytes of the opaque.
pub decrypt_expanded-same :
    (ekey iv : List ℕ) (o o' : Opaque)
    → o.len ≡ o'.len
    → opaque_bytes o ≡ opaque_bytes o'
    → decrypt_expanded ekey iv o ≡ decrypt_expanded ekey iv o'
unfolding decrypt_expanded
decrypt_expanded-same ekey iv o o' e h = rw (h, e) refl
