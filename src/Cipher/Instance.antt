-- ===== src/Cipher/Instance.antt =====
-- The instances of a cipher behind the function pointers of struct mwCipher: the mwCipherInstance_*
-- functions of src/cipher.c, and what mwCipher_new_RC2_40 and mwCipher_new_RC2_128 set there.
use meanwhile.Base.{ℕ, Option, none, some, List}
use meanwhile.Buffer.Opaque.{Opaque}
use meanwhile.Basic.{Str}
use meanwhile.Common.EncryptItem.{EncryptItem}
use meanwhile.Cipher.Rc240.{
  CipherRc240, InstanceRc240, new_item_rc2_40, accepted_rc2_40, accept_rc2_40, encrypt_rc2_40,
  decrypt_rc2_40,
}
use meanwhile.Cipher.Rc2128.{
  Mpi, CipherRc2128, InstanceRc2128, encrypt_rc2_128, decrypt_rc2_128, offered_rc2_128,
  offer_rc2_128,
}

-- The functions of an instance's cipher, which are `none` where the pointer may be NULL and is. The
-- login id is that of the user of the instance's channel, which accepted and accept may look up.
pub record CipherOps (C : Type 0) : Type 0 where
  pub type_of : C → ℕ
  pub offered : C → Option (EncryptItem → C)
  pub offer : C → EncryptItem
  pub accepted : C → Option (Str → EncryptItem → C)
  pub accept : C → Str → C × EncryptItem
  pub encrypt : C → Option (Opaque → C × Opaque)
  pub decrypt : C → Option (Opaque → C × Opaque)

module _ {C : Type 0} (ops : CipherOps C) where
  abbrev pub instance_offered : C → EncryptItem → C
  instance_offered ci item = elim (ops.offered ci) [ none ↦ ci | some f ↦ f item ]

  abbrev pub instance_accepted : C → Str → EncryptItem → C
  instance_accepted ci login_id item = elim (ops.accepted ci) [
    | none ↦ ci
    | some f ↦ f login_id item
  ]

  abbrev pub instance_encrypt : C → Opaque → C × Opaque
  instance_encrypt ci data_ = elim (ops.encrypt ci) [ none ↦ (ci, data_) | some f ↦ f data_ ]

  abbrev pub instance_decrypt : C → Opaque → C × Opaque
  instance_decrypt ci data_ = elim (ops.decrypt ci) [ none ↦ (ci, data_) | some f ↦ f data_ ]

-- An instance of one of the two ciphers, with its cipher.
pub data Instance (mpi : Mpi) : Type 0 where
  rc2_40 : CipherRc240 → InstanceRc240 → Instance mpi
  rc2_128 : CipherRc2128 mpi → InstanceRc2128 → Instance mpi

-- `front` are the bytes that lie in memory in front of a secret.
module _ (mpi : Mpi) where
  abbrev pub instance_type : Instance mpi → ℕ
  instance_type (rc2_40 cr ci) = 0x0000
  instance_type (rc2_128 cr ci) = 0x0001

  -- The RC2/40 cipher has no `offered`.
  abbrev pub offered_by : List ℕ → Instance mpi → Option (EncryptItem → Instance mpi)
  offered_by front (rc2_40 cr ci) = none
  offered_by front (rc2_128 cr ci) =
      some (λ item. rc2_128 cr (offered_rc2_128 mpi front cr ci item))

  abbrev pub offer_by : Instance mpi → EncryptItem
  offer_by (rc2_40 cr ci) = new_item_rc2_40
  offer_by (rc2_128 cr ci) = offer_rc2_128 mpi cr

  abbrev pub accepted_by : List ℕ → Instance mpi → Option (Str → EncryptItem → Instance mpi)
  accepted_by front (rc2_40 cr ci) = some (λ login_id item. rc2_40 cr (accepted_rc2_40 ci login_id))
  accepted_by front (rc2_128 cr ci) =
      some (λ login_id item. rc2_128 cr (offered_rc2_128 mpi front cr ci item))

  abbrev pub accept_by : Instance mpi → Str → Instance mpi × EncryptItem
  accept_by (rc2_40 cr ci) login_id =
      let out = accept_rc2_40 ci login_id in (rc2_40 cr out.0, out.1)
  accept_by (rc2_128 cr ci) login_id = (rc2_128 cr ci, offer_rc2_128 mpi cr)

  abbrev pub encrypt_by : Instance mpi → Option (Opaque → Instance mpi × Opaque)
  encrypt_by (rc2_40 cr ci) =
      some (λ data_. let out = encrypt_rc2_40 cr ci data_ in (rc2_40 cr out.0, out.1))
  encrypt_by (rc2_128 cr ci) =
      some (λ data_. let out = encrypt_rc2_128 ci data_ in (rc2_128 cr out.0, out.1))

  abbrev pub decrypt_by : Instance mpi → Option (Opaque → Instance mpi × Opaque)
  decrypt_by (rc2_40 cr ci) =
      some (λ data_. let out = decrypt_rc2_40 ci data_ in (rc2_40 cr out.0, out.1))
  decrypt_by (rc2_128 cr ci) =
      some (λ data_. let out = decrypt_rc2_128 ci data_ in (rc2_128 cr out.0, out.1))

  abbrev pub instance_ops : List ℕ → CipherOps (Instance mpi)
  instance_ops front = record {
    type_of = instance_type;
    offered = offered_by front;
    offer = offer_by;
    accepted = accepted_by front;
    accept = accept_by;
    encrypt = encrypt_by;
    decrypt = decrypt_by;
  }
