-- ===== src/Cipher/Rc240/Laws.antt =====
-- The two sides of a channel with the RC2/40 cipher.
use meanwhile.Base.{◌≤◌, length, ℕ, ◌≡◌, refl, some, List, All, map}
use meanwhile.Buffer.Opaque.{Opaque, opaque_bytes}
use meanwhile.Basic.{Str}
use meanwhile.Cipher.Chain.Laws.{
  IsChain, IsData, encrypt_expanded-IsChain, decrypt_expanded-encrypt_expanded, iv_init-IsChain,
}
use meanwhile.Cipher.Chain.Stream.{send_all, Agrees, send_all_twice}
use meanwhile.Cipher.Rc240.{
  CipherRc240, InstanceRc240, cipher_new_rc2_40, expand_login, new_instance_rc2_40, accepted_rc2_40,
  encrypt_rc2_40, decrypt_rc2_40,
}

-- The receiver has the key of the sender, and the same chaining value.
record Paired (cr : CipherRc240) (here there : InstanceRc240) : Type 0 where
  key : there.incoming_key ≡ cr.session_key
  iv : there.incoming_iv ≡ here.outgoing_iv
  chain : IsChain here.outgoing_iv

rc2_40-Agrees : (cr : CipherRc240) → Agrees (encrypt_rc2_40 cr) decrypt_rc2_40 (Paired cr)
unfolding encrypt_rc2_40 decrypt_rc2_40
rc2_40-Agrees cr = record {
  next = λ s t o r h. record {
    key = r.key;
    iv =
        rw (r.key, r.iv)
          ((decrypt_expanded-encrypt_expanded cr.session_key s.outgoing_iv o r.chain h).0);
    chain = encrypt_expanded-IsChain cr.session_key s.outgoing_iv o r.chain;
  };
  same = λ s t o r h.
      rw (r.key, r.iv)
        ((decrypt_expanded-encrypt_expanded cr.session_key s.outgoing_iv o r.chain h).2);
}

-- Two sides of a channel with the RC2/40 cipher, the first with a new cipher and the login id
-- `cs` of at least four characters, the second with any cipher, after it accepted the same login
-- id: any messages of fewer than 2 ^ 30 bytes each that the first encrypts, the second decrypts
-- to the same bytes.
pub rc2_40_channel :
    (cr : CipherRc240) (cs : List ℕ) (login_id : Str) (os : List Opaque)
    → 4 ≤ length cs
    → All IsData os
    → let here = new_instance_rc2_40 cipher_new_rc2_40 (some cs) in
      let there = accepted_rc2_40 (new_instance_rc2_40 cr login_id).1 (some cs) in
      map opaque_bytes (send_all decrypt_rc2_40 there (send_all (encrypt_rc2_40 here.0) here.1 os))
      ≡ map opaque_bytes os
unfolding new_instance_rc2_40 accepted_rc2_40 expand_login
rc2_40_channel cr cs login_id os long h =
    let here = new_instance_rc2_40 cipher_new_rc2_40 (some cs) in
    let there = accepted_rc2_40 (new_instance_rc2_40 cr login_id).1 (some cs) in
    send_all_twice (encrypt_rc2_40 here.0) decrypt_rc2_40 here.1 there os (rc2_40-Agrees here.0)
      (record { key = refl; iv = refl; chain = iv_init-IsChain }) h
