-- ===== src/Common/EncryptItem.antt =====
-- struct mwEncryptItem of src/common.c and src/mw_common.h.
pub mod Laws
use meanwhile.Base.{ℕ, some, List, ◌++◌}
use meanwhile.Buffer.Opaque.{Opaque, opaque_empty, opaque_bytes}
use meanwhile.Buffer.Put.{Put, ◌>>◌}
use meanwhile.Buffer.Get.{Get, ◌>>=◌, pure, unless_error}
use meanwhile.Basic.{guint16_put, guint16_get, opaque_put, opaque_get}
use meanwhile.Basic.Wire.{wire16, wire_opaque, IsWord16, IsOpaque}

pub record EncryptItem : Type 0 where
  pub id : ℕ
  pub info : Opaque

abbrev pub encrypt_item_zero : EncryptItem
encrypt_item_zero = record { id = 0; info = opaque_empty }

unfoldable pub encrypt_item_put : EncryptItem → Put
encrypt_item_put ei = do guint16_put ei.id; opaque_put (some ei.info)

unfoldable pub encrypt_item_get : EncryptItem → Get EncryptItem
encrypt_item_get ei =
    unless_error ei
      do id ← guint16_get ei.id; info ← opaque_get; pure (record { id = id; info = info })

abbrev pub encrypt_item_clear : EncryptItem → EncryptItem
encrypt_item_clear ei = encrypt_item_zero

unfoldable pub wire_encrypt_item : EncryptItem → List ℕ
wire_encrypt_item e = wire16 e.id ++ wire_opaque (opaque_bytes e.info)

pub record IsEncryptItem (e : EncryptItem) : Type 0 where
  pub id_ok : IsWord16 e.id
  pub info_ok : IsOpaque e.info
