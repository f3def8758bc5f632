-- ===== src/Common/EncryptItem/Laws.antt =====
-- Writing and reading an encryption item.
use meanwhile.Buffer.Put.Laws.{Writes, Writes->>}
use meanwhile.Buffer.Get.Laws.{Reads, Reads->>=, Reads-end, pure-Reads, unless_error-Reads}
use meanwhile.Buffer.Get.Safe.{IsReader}
use meanwhile.Basic.Writes.{guint16_put-Writes, opaque_put-Writes}
use meanwhile.Basic.Reads.{guint16_get-Reads, opaque_get-Reads}
use meanwhile.Common.Rules.{safe_readers}
use meanwhile.Common.EncryptItem.{
  EncryptItem, encrypt_item_put, encrypt_item_get, wire_encrypt_item, IsEncryptItem,
}

pub encrypt_item_put-Writes :
    (e : EncryptItem) → IsEncryptItem e → Writes (encrypt_item_put e) (wire_encrypt_item e)
unfolding encrypt_item_put wire_encrypt_item
encrypt_item_put-Writes e h =
    Writes->> (guint16_put-Writes e.id) (opaque_put-Writes e.info h.info_ok)

pub encrypt_item_get-IsReader : (old : EncryptItem) → IsReader (encrypt_item_get old)
unfolding encrypt_item_get
encrypt_item_get-IsReader old = search safe_readers depth 8

pub encrypt_item_get-Reads :
    (old e : EncryptItem) → IsEncryptItem e → Reads (encrypt_item_get old) (wire_encrypt_item e) e
unfolding encrypt_item_get wire_encrypt_item
encrypt_item_get-Reads old e h = unless_error-Reads old (
    Reads->>= _ (guint16_get-Reads _ _ h.id_ok)
      (Reads-end _ (opaque_get-Reads _ h.info_ok) (pure-Reads _)))
