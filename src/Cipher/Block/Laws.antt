-- ===== src/Cipher/Block/Laws.antt =====
-- Decryption of a block undoes its encryption.
use Prim.Native.Nat.{bit_and, bit_xor}
use meanwhile.Base.{
  ℕ, zero, suc, ◌+◌, ◌*◌, ◌%◌, ◌^◌, ◌<◌, ◌≡◌, refl, sym, ap, ◌∙◌, arith, Bool, true, false, ◌||◌,
  List, [], ◌∷◌, get_or, length, All, ◌==◌, if◌then◌else◌,
}
use meanwhile.Base.Bits.{and-mod16, xor-mod16}
use meanwhile.Cipher.Block.{
  Words, add32, sub32, rotate, mixed, mix, key_at, mash, unmix, unmash, mash_after, unmash_after,
  encrypt_rounds, decrypt_rounds, words_of, bytes_of_words, encrypt_block, decrypt_block,
}

-- Two words agree in the 16 bits that count.
abbrev Same16 : ℕ → ℕ → Type 0
Same16 x y = x % 2 ^ 16 ≡ y % 2 ^ 16

record SameWords (s t : Words) : Type 0 where
  same_a : Same16 s.a t.a
  same_b : Same16 s.b t.b
  same_c : Same16 s.c t.c
  same_d : Same16 s.d t.d

mixed-Same16 :
    (k x x' y y' z z' : ℕ)
    → Same16 x x'
    → Same16 y y'
    → Same16 z z'
    → Same16 (mixed x y z k) (mixed x' y' z' k)
unfolding mixed
mixed-Same16 k x x' y y' z z' p q r =
    let first : Same16 (bit_and z (bit_xor x 0xffff)) (bit_and z' (bit_xor x' 0xffff)) =
      and-mod16 z z' (bit_xor x 0xffff) (bit_xor x' 0xffff) r
        (xor-mod16 x x' 0xffff 0xffff p refl) in
    let second : Same16 (bit_and y x) (bit_and y' x') = and-mod16 y y' x x' q p in omega arith

sub-add : (x x' m m' : ℕ) → Same16 x' (add32 x m) → Same16 m m' → Same16 (sub32 x' m') x
sub-add x x' m m' p q = omega arith

-- What is rotated by 1, 2, 3 and 5 places is rotated on by 15, 14, 13 and 11.
rotate-1 : (x y : ℕ) → Same16 y (rotate 1 x) → Same16 (rotate 15 y) x
rotate-1 x y h = omega arith

rotate-2 : (x y : ℕ) → Same16 y (rotate 2 x) → Same16 (rotate 14 y) x
rotate-2 x y h = omega arith

rotate-3 : (x y : ℕ) → Same16 y (rotate 3 x) → Same16 (rotate 13 y) x
rotate-3 x y h = omega arith

rotate-5 : (x y : ℕ) → Same16 y (rotate 5 x) → Same16 (rotate 11 y) x
rotate-5 x y h = omega arith

unmix-mix :
    (ekey : List ℕ) (j : ℕ) (s t : Words)
    → SameWords t (mix ekey j s)
    → SameWords (unmix ekey j t) s
unfolding mix unmix
unmix-mix ekey j s t h =
    let k0 = get_or ekey j 0 in
    let k1 = get_or ekey (j + 1) 0 in
    let k2 = get_or ekey (j + 2) 0 in
    let k3 = get_or ekey (j + 3) 0 in
    let m = mix ekey j s in
    let u = unmix ekey j t in
    let a_back : Same16 u.a s.a =
      sub-add s.a (rotate 11 t.a) (mixed m.b m.c m.d k3) (mixed t.b t.c t.d k3)
        (rotate-5 (add32 s.a (mixed m.b m.c m.d k3)) t.a h.same_a)
        (mixed-Same16 k3 m.b t.b m.c t.c m.d t.d (sym h.same_b) (sym h.same_c) (sym h.same_d)) in
    let b_back : Same16 u.b s.b =
      sub-add s.b (rotate 13 t.b) (mixed m.c m.d s.a k2) (mixed t.c t.d u.a k2)
        (rotate-3 (add32 s.b (mixed m.c m.d s.a k2)) t.b h.same_b)
        (mixed-Same16 k2 m.c t.c m.d t.d s.a u.a (sym h.same_c) (sym h.same_d) (sym a_back)) in
    let c_back : Same16 u.c s.c =
      sub-add s.c (rotate 14 t.c) (mixed m.d s.a s.b k1) (mixed t.d u.a u.b k1)
        (rotate-2 (add32 s.c (mixed m.d s.a s.b k1)) t.c h.same_c)
        (mixed-Same16 k1 m.d t.d s.a u.a s.b u.b (sym h.same_d) (sym a_back) (sym b_back)) in
    let d_back : Same16 u.d s.d =
      sub-add s.d (rotate 15 t.d) (mixed s.a s.b s.c k0) (mixed u.a u.b u.c k0)
        (rotate-1 (add32 s.d (mixed s.a s.b s.c k0)) t.d h.same_d)
        (mixed-Same16 k0 s.a u.a s.b u.b s.c u.c (sym a_back) (sym b_back) (sym c_back)) in
    record { same_a = a_back; same_b = b_back; same_c = c_back; same_d = d_back }

key_at-Same16 : (ekey : List ℕ) (x y : ℕ) → Same16 x y → key_at ekey x ≡ key_at ekey y
key_at-Same16 ekey x y h = ap (λ (i : ℕ). get_or ekey i 0) (omega arith)

-- One word of the mash and its undoing.
key_back :
    (ekey : List ℕ) (x x' y y' : ℕ)
    → Same16 x' (add32 x (key_at ekey y))
    → Same16 y y'
    → Same16 (sub32 x' (key_at ekey y')) x
key_back ekey x x' y y' h e =
    sub-add x x' (key_at ekey y) (key_at ekey y') h
      (ap (λ (k : ℕ). k % 2 ^ 16) (key_at-Same16 ekey y y' e))

unmash-mash :
    (ekey : List ℕ) (s t : Words) → SameWords t (mash ekey s) → SameWords (unmash ekey t) s
unfolding mash unmash
unmash-mash ekey s t h =
    let m = mash ekey s in
    let a_back = key_back ekey s.a t.a m.b t.b h.same_a (sym h.same_b) in
    record {
      same_a = a_back;
      same_b = key_back ekey s.b t.b m.c t.c h.same_b (sym h.same_c);
      same_c = key_back ekey s.c t.c m.d t.d h.same_c (sym h.same_d);
      same_d = key_back ekey s.d t.d s.a (unmash ekey t).a h.same_d (sym a_back);
    }

mash_if :
    (ekey : List ℕ) (due : Bool) (s t : Words)
    → SameWords t (if due then mash ekey s else s)
    → SameWords (if due then unmash ekey t else t) s
mash_if ekey true s t h = unmash-mash ekey s t h
mash_if ekey false s t h = h

next_round : (i : ℕ) → ((suc i == 5) || (suc i == 11)) ≡ ((i == 4) || (i == 10))
next_round i = ground arith

-- Behind round `i` a mash is due exactly when in front of round `i + 1` an undoing is.
unmash_after-mash_after :
    (ekey : List ℕ) (i : ℕ) (s t : Words)
    → SameWords t (mash_after ekey i s)
    → SameWords (unmash_after ekey (suc i) t) s
unfolding mash_after unmash_after
unmash_after-mash_after ekey i s t h =
    rw (next_round i) (mash_if ekey ((i == 4) || (i == 10)) s t h)

-- `n + 1` rounds, in which the last mash is not yet done.
decrypt_rounds-encrypt :
    (ekey : List ℕ) (n : ℕ) (s t : Words)
    → SameWords t (mix ekey (n * 4) (encrypt_rounds ekey n s))
    → SameWords (decrypt_rounds ekey (suc n) t) s
unfolding encrypt_rounds decrypt_rounds unmash_after
decrypt_rounds-encrypt ekey zero s t h = unmix-mix ekey 0 s t h
decrypt_rounds-encrypt ekey (suc n) s t h =
    decrypt_rounds-encrypt ekey n s (unmash_after ekey (suc n) (unmix ekey (suc n * 4) t)) (
      unmash_after-mash_after ekey n (mix ekey (n * 4) (encrypt_rounds ekey n s))
        (unmix ekey (suc n * 4) t) (unmix-mix ekey (suc n * 4) (encrypt_rounds ekey (suc n) s) t h))

-- The last round has no mash.
rounds_back :
    (ekey : List ℕ) (s t : Words)
    → SameWords t (encrypt_rounds ekey 16 s)
    → SameWords (decrypt_rounds ekey 16 t) s
unfolding encrypt_rounds mash_after
rounds_back ekey s t h = decrypt_rounds-encrypt ekey 15 s t h

abbrev pub IsByte : ℕ → Type 0
IsByte x = x < 2 ^ 8

words_of-bytes_of_words : (s : Words) → SameWords (words_of (bytes_of_words s)) s
unfolding words_of bytes_of_words
words_of-bytes_of_words s = record {
  same_a = omega arith;
  same_b = omega arith;
  same_c = omega arith;
  same_d = omega arith;
}

bytes_of_words-Same : (s t : Words) → SameWords s t → bytes_of_words s ≡ bytes_of_words t
unfolding bytes_of_words
bytes_of_words-Same s t h = ground arith

bytes_of_words-words_of :
    (o : List ℕ) → length o ≡ 8 → All IsByte o → bytes_of_words (words_of o) ≡ o
unfolding bytes_of_words words_of
bytes_of_words-words_of (x0 ∷ x1 ∷ x2 ∷ x3 ∷ x4 ∷ x5 ∷ x6 ∷ x7 ∷ []) e h = ground arith
bytes_of_words-words_of _ e h = absurd (omega arith)

-- mwDecryptBlock undoes mwEncryptBlock on eight bytes, for any expanded key.
pub decrypt_block-encrypt_block :
    (ekey o : List ℕ) → length o ≡ 8 → All IsByte o → decrypt_block ekey (encrypt_block ekey o) ≡ o
unfolding decrypt_block encrypt_block
decrypt_block-encrypt_block ekey o e h =
    let s = words_of o in
    bytes_of_words-Same (decrypt_rounds ekey 16 (words_of (encrypt_block ekey o))) s (
      rounds_back ekey s (words_of (encrypt_block ekey o))
        (words_of-bytes_of_words (encrypt_rounds ekey 16 s)))
    ∙ bytes_of_words-words_of o e h

pub length-encrypt_block : (ekey o : List ℕ) → length (encrypt_block ekey o) ≡ 8
unfolding encrypt_block bytes_of_words
length-encrypt_block ekey o = refl

pub encrypt_block-IsByte : (ekey o : List ℕ) → All IsByte (encrypt_block ekey o)
unfolding encrypt_block bytes_of_words
encrypt_block-IsByte ekey o = (
  omega arith,
  (
    omega arith,
    (omega arith, (omega arith, (omega arith, (omega arith, (omega arith, (omega arith, tt)))))),
  ),
)
