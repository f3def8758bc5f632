-- ===== src/Cipher/Rc240.antt =====
-- The RC2/40 cipher of src/cipher.c, whose keys are the login ids of the two sides.
pub mod Laws
use meanwhile.Base.{
  ℕ, ◌+◌, Bool, true, false, none, some, List, [], ◌∷◌, ◌++◌, take, replicate, if◌then◌else◌,
}
use meanwhile.Buffer.Opaque.{Opaque, opaque_empty}
use meanwhile.Basic.{Str}
use meanwhile.Common.EncryptItem.{EncryptItem}
use meanwhile.Cipher.Key.{iv_init, key_expand}
use meanwhile.Cipher.Chain.{encrypt_expanded, decrypt_expanded}

pub record CipherRc240 : Type 0 where
  pub session_key : List ℕ
  pub ready : Bool

-- The fields of the instance; its cipher and its channel are arguments where they are used.
pub record InstanceRc240 : Type 0 where
  pub incoming_key : List ℕ
  pub outgoing_iv : List ℕ
  pub incoming_iv : List ℕ

-- g_new0
abbrev pub cipher_new_rc2_40 : CipherRc240
cipher_new_rc2_40 = record { session_key = replicate 64 0; ready = false }

-- mwKeyExpand(ekey, (guchar * ) login_id, 5), which does nothing for NULL. The string ends with a
-- zero; what lies behind it is not known, and the model leaves it out.
unfoldable pub expand_login : List ℕ → Str → List ℕ
expand_login ekey none = ekey
expand_login ekey (some cs) = key_expand (take 5 (cs ++ (0 ∷ [])))

-- `login_id` is that of the session's own login.
unfoldable pub new_instance_rc2_40 : CipherRc240 → Str → CipherRc240 × InstanceRc240
new_instance_rc2_40 cr login_id = (
  if cr.ready
      then cr
      else record { session_key = expand_login cr.session_key login_id; ready = true },
  record { incoming_key = replicate 64 0; outgoing_iv = iv_init; incoming_iv = iv_init },
)

abbrev pub new_item_rc2_40 : EncryptItem
new_item_rc2_40 = record { id = 0x0000; info = opaque_empty }

-- `login_id` is that of the channel's user.
unfoldable pub accepted_rc2_40 : InstanceRc240 → Str → InstanceRc240
accepted_rc2_40 cir none = cir
accepted_rc2_40 cir (some cs) = record cir {
  incoming_key = expand_login cir.incoming_key (some cs);
}

unfoldable pub accept_rc2_40 : InstanceRc240 → Str → InstanceRc240 × EncryptItem
accept_rc2_40 cir login_id = (accepted_rc2_40 cir login_id, new_item_rc2_40)

unfoldable pub encrypt_rc2_40 : CipherRc240 → InstanceRc240 → Opaque → InstanceRc240 × Opaque
encrypt_rc2_40 cr cir data_ =
    let out = encrypt_expanded cr.session_key cir.outgoing_iv data_ in
    (record cir { outgoing_iv = out.0 }, out.1)

unfoldable pub decrypt_rc2_40 : InstanceRc240 → Opaque → InstanceRc240 × Opaque
decrypt_rc2_40 cir data_ =
    let out = decrypt_expanded cir.incoming_key cir.incoming_iv data_ in
    (record cir { incoming_iv = out.0 }, out.1)
