-- ===== src/Cipher/Rc2128.antt =====
-- The RC2/128 cipher of src/cipher.c, whose key is a secret that both sides compute after Diffie
-- and Hellman. The library of large integers is a parameter.
pub mod Laws
use meanwhile.Base.{
  ℕ, ◌+◌, ◌-◌, ◌/◌, ◌%◌, ◌^◌, Bool, some, List, [], ◌∷◌, ◌++◌, drop, length, replicate, get_or, set,
}
use meanwhile.Buffer.Opaque.{Opaque, opaque_bytes, opaque_empty, block}
use meanwhile.Basic.{opaque_clone}
use meanwhile.Common.EncryptItem.{EncryptItem}
use meanwhile.Cipher.Key.{iv_init, key_expand}
use meanwhile.Cipher.Chain.{encrypt_expanded, decrypt_expanded}

-- What src/cipher.c calls of mpi.h: mw_mp_read_unsigned_bin, mw_mp_to_unsigned_bin with
-- mw_mp_unsigned_bin_size, mw_mp_set_int, and mw_mp_exptmod(base, exponent, modulus).
pub record Mpi : Type 1 where
  pub Num : Type 0
  pub read_unsigned_bin : List ℕ → Num
  pub to_unsigned_bin : Num → List ℕ
  pub set_int : ℕ → Num
  pub exptmod : Num → Num → Num → Num

-- The 16 bytes before the end of a block, as they are read at data + (len - 16). `front` are the
-- bytes of memory in front of the block, which no one knows: a block of fewer than 16 bytes is read
-- with the last of them.
unfoldable pub last_16 : List ℕ → List ℕ → List ℕ
last_16 front bytes = let all = front ++ bytes in drop (length all - 16) all

abbrev pub dh_prime : List ℕ
dh_prime =
    0xcf ∷ 0x84 ∷ 0xaf ∷ 0xce ∷ 0x86 ∷ 0xdd ∷ 0xfa ∷ 0x52 ∷ 0x7f ∷ 0x13 ∷ 0x6d ∷ 0x10 ∷ 0x35 ∷ 0x75
    ∷ 0x28 ∷ 0xee ∷ 0xfb ∷ 0xa0 ∷ 0xaf ∷ 0xef ∷ 0x80 ∷ 0x8f ∷ 0x29 ∷ 0x17 ∷ 0x4e ∷ 0x3b ∷ 0x6a
    ∷ 0x9e ∷ 0x97 ∷ 0x00 ∷ 0x01 ∷ 0x71 ∷ 0x7c ∷ 0x8f ∷ 0x10 ∷ 0x6c ∷ 0x41 ∷ 0xc1 ∷ 0x61 ∷ 0xa6
    ∷ 0xce ∷ 0x91 ∷ 0x05 ∷ 0x7b ∷ 0x34 ∷ 0xda ∷ 0x62 ∷ 0xcb ∷ 0xb8 ∷ 0x7b ∷ 0xfd ∷ 0xc1 ∷ 0xb3
    ∷ 0x5c ∷ 0x1b ∷ 0x91 ∷ 0x0f ∷ 0xea ∷ 0x72 ∷ 0x24 ∷ 0x9d ∷ 0x56 ∷ 0x6b ∷ 0x9f ∷ []

module _ (mpi : Mpi) where
  pub record CipherRc2128 : Type 0 where
    pub private_key : mpi.Num
    pub public_key : Opaque

  abbrev pub init_dh_prime : mpi.Num
  init_dh_prime = mpi.read_unsigned_bin dh_prime

  abbrev pub init_dh_base : mpi.Num
  init_dh_base = mpi.set_int 3

  -- mw_mp_set_rand: `random` are the (bits / 8) + 1 bytes that rand() gives.
  abbrev pub set_rand : List ℕ → ℕ → mpi.Num
  set_rand random bits = mpi.read_unsigned_bin (set random 0 (get_or random 0 0 % 2 ^ (bits % 8)))

  abbrev pub dh_export_key : mpi.Num → Opaque
  dh_export_key key =
      let bytes = mpi.to_unsigned_bin key in record { len = length bytes; data_ = some bytes }

  abbrev pub dh_import_key : Opaque → mpi.Num
  dh_import_key o = mpi.read_unsigned_bin (opaque_bytes o)

  -- mwDHRandKeypair: the private key, then the public one.
  unfoldable pub dh_rand_keypair : List ℕ → mpi.Num × mpi.Num
  dh_rand_keypair random =
      let private_key = set_rand random 512 in
      (private_key, mpi.exptmod init_dh_base private_key init_dh_prime)

  unfoldable pub dh_calculate_shared : mpi.Num → mpi.Num → mpi.Num
  dh_calculate_shared remote_key private_key = mpi.exptmod remote_key private_key init_dh_prime

  unfoldable pub cipher_new_rc2_128 : List ℕ → CipherRc2128
  cipher_new_rc2_128 random =
      let keys = dh_rand_keypair random in
      record { private_key = keys.0; public_key = dh_export_key keys.1 }

  -- mwKeyExpand(cir->shared, sho.data + (sho.len - 16), 16)
  unfoldable pub shared_of : List ℕ → CipherRc2128 → EncryptItem → List ℕ
  shared_of front cr item =
      let sho =
        mpi.to_unsigned_bin (dh_calculate_shared (dh_import_key item.info) cr.private_key) in
      key_expand (last_16 front sho)

pub record InstanceRc2128 : Type 0 where
  pub shared : List ℕ
  pub outgoing_iv : List ℕ
  pub incoming_iv : List ℕ

abbrev pub new_instance_rc2_128 : InstanceRc2128
new_instance_rc2_128 = record {
  shared = replicate 64 0;
  outgoing_iv = iv_init;
  incoming_iv = iv_init;
}

unfoldable pub encrypt_rc2_128 : InstanceRc2128 → Opaque → InstanceRc2128 × Opaque
encrypt_rc2_128 cir data_ =
    let out = encrypt_expanded cir.shared cir.outgoing_iv data_ in
    (record cir { outgoing_iv = out.0 }, out.1)

unfoldable pub decrypt_rc2_128 : InstanceRc2128 → Opaque → InstanceRc2128 × Opaque
decrypt_rc2_128 cir data_ =
    let out = decrypt_expanded cir.shared cir.incoming_iv data_ in
    (record cir { incoming_iv = out.0 }, out.1)

module _ (mpi : Mpi) where
  -- offered_RC2_128, and accepted_RC2_128, which calls it
  unfoldable pub offered_rc2_128 :
      List ℕ → CipherRc2128 mpi → InstanceRc2128 → EncryptItem → InstanceRc2128
  offered_rc2_128 front cr cir item = record cir { shared = shared_of mpi front cr item }

  -- offer_RC2_128, and accept_RC2_128, which calls it
  unfoldable pub offer_rc2_128 : CipherRc2128 mpi → EncryptItem
  offer_rc2_128 cr = record { id = 0x0001; info = opaque_clone (some cr.public_key) }
