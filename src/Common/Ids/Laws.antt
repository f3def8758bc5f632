-- ===== src/Common/Ids/Laws.antt =====
-- Writing and reading the two kinds of ids.
use meanwhile.Buffer.Put.Laws.{Writes}
use meanwhile.Buffer.Get.Laws.{Reads, Reads->>=, Reads-end, pure-Reads, unless_error-Reads}
use meanwhile.Buffer.Get.Safe.{IsReader}
use meanwhile.Basic.Reads.{string_get-Reads, guint16_get-Reads}
use meanwhile.Common.Rules.{writers, safe_readers}
use meanwhile.Common.Ids.{
  IdBlock, id_block_put, id_block_get, wire_id_block, IsIdBlock, AwareIdBlock, aware_id_block_put,
  aware_id_block_get, wire_aware_id_block, IsAwareIdBlock,
}

pub id_block_put-Writes : (i : IdBlock) → Writes (id_block_put i) (wire_id_block i)
unfolding id_block_put wire_id_block
id_block_put-Writes i = search writers depth 8

pub id_block_get-IsReader : (old : IdBlock) → IsReader (id_block_get old)
unfolding id_block_get
id_block_get-IsReader old = search safe_readers depth 8

pub id_block_get-Reads :
    (old i : IdBlock) → IsIdBlock i → Reads (id_block_get old) (wire_id_block i) i
unfolding id_block_get wire_id_block
id_block_get-Reads old i h = unless_error-Reads old (
    Reads->>= _ (string_get-Reads _ h.user_ok)
      (Reads-end _ (string_get-Reads _ h.community_ok) (pure-Reads _)))

pub aware_id_block_put-Writes :
    (i : AwareIdBlock) → Writes (aware_id_block_put i) (wire_aware_id_block i)
unfolding aware_id_block_put wire_aware_id_block
aware_id_block_put-Writes i = search writers depth 8

pub aware_id_block_get-IsReader : (old : AwareIdBlock) → IsReader (aware_id_block_get old)
unfolding aware_id_block_get
aware_id_block_get-IsReader old = search safe_readers depth 8

pub aware_id_block_get-Reads :
    (old i : AwareIdBlock)
    → IsAwareIdBlock i
    → Reads (aware_id_block_get old) (wire_aware_id_block i) i
unfolding aware_id_block_get wire_aware_id_block
aware_id_block_get-Reads old i h = unless_error-Reads old (
    Reads->>= _ (guint16_get-Reads _ _ h.type_ok) (
      Reads->>= _ (string_get-Reads _ h.user_ok)
        (Reads-end _ (string_get-Reads _ h.community_ok) (pure-Reads _))))
