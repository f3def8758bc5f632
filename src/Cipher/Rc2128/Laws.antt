-- ===== src/Cipher/Rc2128/Laws.antt =====
-- The two sides of a channel with the RC2/128 cipher.
use native.Mathlib.Nat.{suc-add, zero-add}
use meanwhile.Base.{
  ℕ, ◌≡◌, refl, ap, ◌∙◌, some, List, [], ◌∷◌, All, map, take_all, length, drop, ◌-◌, suc_not_zero,
  ◌≤◌, ◌+◌, ◌++◌, sym, arith, length-append,
}
use meanwhile.Cipher.Key.{key_expand}
use meanwhile.Buffer.Opaque.{Opaque, opaque_bytes}
use meanwhile.Basic.{opaque_clone}
use meanwhile.Cipher.Chain.Laws.{
  IsChain, IsData, encrypt_expanded-IsChain, decrypt_expanded-encrypt_expanded, iv_init-IsChain,
}
use meanwhile.Cipher.Chain.Stream.{send_all, Agrees, send_all_twice}
use meanwhile.Cipher.Rc2128.{
  Mpi, InstanceRc2128, init_dh_prime, init_dh_base, set_rand, dh_import_key, dh_rand_keypair,
  dh_calculate_shared, cipher_new_rc2_128, shared_of, last_16, new_instance_rc2_128,
  encrypt_rc2_128, decrypt_rc2_128, offered_rc2_128, offer_rc2_128,
}

record Paired (here there : InstanceRc2128) : Type 0 where
  key : there.shared ≡ here.shared
  iv : there.incoming_iv ≡ here.outgoing_iv
  chain : IsChain here.outgoing_iv

rc2_128-Agrees : Agrees encrypt_rc2_128 decrypt_rc2_128 Paired
unfolding encrypt_rc2_128 decrypt_rc2_128
rc2_128-Agrees = record {
  next = λ s t o r h. record {
    key = r.key;
    iv =
        rw (r.key, r.iv) ((decrypt_expanded-encrypt_expanded s.shared s.outgoing_iv o r.chain h).0);
    chain = encrypt_expanded-IsChain s.shared s.outgoing_iv o r.chain;
  };
  same = λ s t o r h.
      rw (r.key, r.iv) ((decrypt_expanded-encrypt_expanded s.shared s.outgoing_iv o r.chain h).2);
}

-- What the cipher relies on of the library: a number that is written is read again, and powers of
-- powers may be taken in either order.
pub record IsMpi (mpi : Mpi) : Type 0 where
  pub read-to : (x : mpi.Num) → mpi.read_unsigned_bin (mpi.to_unsigned_bin x) ≡ x
  pub swap :
      (g x y p : mpi.Num)
      → mpi.exptmod (mpi.exptmod g x p) y p ≡ mpi.exptmod (mpi.exptmod g y p) x p

clone_held :
    (xs : List ℕ)
    → opaque_bytes (opaque_clone (some (record { len = length xs; data_ = some xs }))) ≡ xs
unfolding opaque_clone
clone_held [] = refl
clone_held (x ∷ xs) = rw (suc_not_zero (length xs), take_all xs, take_all xs) refl

drop-front :
    (front bytes : List ℕ) (k : ℕ) → drop (length front + k) (front ++ bytes) ≡ drop k bytes
drop-front [] bytes k = rw zero-add refl
drop-front (x ∷ front) bytes k = rw suc-add (drop-front front bytes k)

-- What is read in front of a block does not matter when the block is long enough.
last_16-long :
    (front bytes : List ℕ)
    → 16 ≤ length bytes
    → last_16 front bytes ≡ drop (length bytes - 16) bytes
unfolding last_16
last_16-long front bytes h =
    let size : length front + length bytes - 16 ≡ length front + (length bytes - 16) =
      omega arith in
    rw (length-append front bytes, size) (drop-front front bytes (length bytes - 16))

last_16_any :
    (front front' bytes : List ℕ) → 16 ≤ length bytes → last_16 front bytes ≡ last_16 front' bytes
last_16_any front front' bytes h = last_16-long front bytes h ∙ sym (last_16-long front' bytes h)

module _ (mpi : Mpi) (laws : IsMpi mpi) where
  -- The number in an offer is the public key of the side that makes it.
  dh_import_key-offer :
      (random : List ℕ)
      → dh_import_key mpi (offer_rc2_128 mpi (cipher_new_rc2_128 mpi random)).info
        ≡ (dh_rand_keypair mpi random).1
  unfolding offer_rc2_128 cipher_new_rc2_128 opaque_clone
  dh_import_key-offer random =
      ap mpi.read_unsigned_bin (clone_held (mpi.to_unsigned_bin (dh_rand_keypair mpi random).1))
      ∙ laws.read-to (dh_rand_keypair mpi random).1

  power_swap :
      (random random' : List ℕ)
      → mpi.exptmod
          (dh_rand_keypair mpi random').1
          (cipher_new_rc2_128 mpi random).private_key
          (init_dh_prime mpi)
        ≡ mpi.exptmod
            (dh_rand_keypair mpi random).1
            (cipher_new_rc2_128 mpi random').private_key
            (init_dh_prime mpi)
  unfolding dh_rand_keypair cipher_new_rc2_128
  power_swap random random' =
      laws.swap (init_dh_base mpi) (set_rand mpi random' 512) (set_rand mpi random 512)
        (init_dh_prime mpi)

  -- Both sides compute the same secret.
  secret_swap :
      (random random' : List ℕ)
      → let a = cipher_new_rc2_128 mpi random in
        let b = cipher_new_rc2_128 mpi random' in
        dh_calculate_shared mpi (dh_import_key mpi (offer_rc2_128 mpi b).info) a.private_key
        ≡ dh_calculate_shared mpi (dh_import_key mpi (offer_rc2_128 mpi a).info) b.private_key
  unfolding dh_calculate_shared
  secret_swap random random' =
      rw (dh_import_key-offer random, dh_import_key-offer random') (power_swap random random')

  shared_of_swap :
      (front front' random random' : List ℕ)
      → let a = cipher_new_rc2_128 mpi random in
        let b = cipher_new_rc2_128 mpi random' in
        16
          ≤ length (
              mpi.to_unsigned_bin (
                dh_calculate_shared mpi
                  (dh_import_key mpi (offer_rc2_128 mpi b).info)
                  a.private_key))
        → shared_of mpi front a (offer_rc2_128 mpi b) ≡ shared_of mpi front' b (offer_rc2_128 mpi a)
  unfolding shared_of
  shared_of_swap front front' random random' long =
      let a = cipher_new_rc2_128 mpi random in
      let b = cipher_new_rc2_128 mpi random' in
      let here =
        mpi.to_unsigned_bin
          (dh_calculate_shared mpi (dh_import_key mpi (offer_rc2_128 mpi b).info) a.private_key) in
      ap key_expand (last_16_any front front' here long)
      ∙ ap (λ (x : mpi.Num). key_expand (last_16 front' (mpi.to_unsigned_bin x)))
          (secret_swap random random')

  -- Two sides of a channel with the RC2/128 cipher, whatever the random bytes of each and
  -- whatever lies in memory in front of their secret, after each took the offer of the other, for
  -- a library of large integers that reads the numbers it writes and whose powers can be swapped,
  -- when the secret that they share has at least 16 bytes: any messages of fewer than 2 ^ 30
  -- bytes each that one side encrypts, the other decrypts to the same bytes.
  pub rc2_128_channel :
      (front front' random random' : List ℕ) (os : List Opaque)
      → let a = cipher_new_rc2_128 mpi random in
        let b = cipher_new_rc2_128 mpi random' in
        16
          ≤ length (
              mpi.to_unsigned_bin (
                dh_calculate_shared mpi
                  (dh_import_key mpi (offer_rc2_128 mpi b).info)
                  a.private_key))
        → All IsData os
        → let here = offered_rc2_128 mpi front a new_instance_rc2_128 (offer_rc2_128 mpi b) in
          let there = offered_rc2_128 mpi front' b new_instance_rc2_128 (offer_rc2_128 mpi a) in
          map opaque_bytes (send_all decrypt_rc2_128 there (send_all encrypt_rc2_128 here os))
          ≡ map opaque_bytes os
  unfolding offered_rc2_128
  rc2_128_channel front front' random random' os long h =
      let a = cipher_new_rc2_128 mpi random in
      let b = cipher_new_rc2_128 mpi random' in
      send_all_twice encrypt_rc2_128 decrypt_rc2_128
        (offered_rc2_128 mpi front a new_instance_rc2_128 (offer_rc2_128 mpi b))
        (offered_rc2_128 mpi front' b new_instance_rc2_128 (offer_rc2_128 mpi a)) os rc2_128-Agrees
        (record {
          key = sym (shared_of_swap front front' random random' long);
          iv = refl;
          chain = iv_init-IsChain;
        })
        h
