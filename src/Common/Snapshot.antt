-- ===== src/Common/Snapshot.antt =====
-- struct mwAwareSnapshot of src/common.c and src/mw_common.h.
pub mod Laws
use meanwhile.Base.{ℕ, ◌+◌, ◌-◌, ◌≡◌, Bool, true, false, if◌then◌else◌, none, List, ◌++◌, ltb}
use meanwhile.Buffer.Put.Laws.{bytes_if}
use meanwhile.Buffer.Get.{GetBuffer, Get, ◌>>=◌, pure, branch, get_buffer_advance}
use meanwhile.Basic.{Str, string_get, guint32_get, gboolean_get}
use meanwhile.Basic.Wire.{wire_str, wire32, wire_bool, IsStr, IsWord32}
use meanwhile.Common.Rules.{strdup}
use meanwhile.Common.Ids.{
  AwareIdBlock, aware_id_block_zero, aware_id_block_get, aware_id_block_clone, wire_aware_id_block,
  IsAwareIdBlock,
}
use meanwhile.Common.UserStatus.{
  UserStatus, user_status_zero, user_status_get, user_status_clone, wire_user_status, IsUserStatus,
}

pub record Snapshot : Type 0 where
  pub id : AwareIdBlock
  pub group : Str
  pub online : Bool
  pub alt_id : Str
  pub status : UserStatus
  pub name : Str

abbrev pub snapshot_zero : Snapshot
snapshot_zero = record {
  id = aware_id_block_zero;
  group = none;
  online = false;
  alt_id = none;
  status = user_status_zero;
  name = none;
}

unfoldable pub snapshot_get_online : Snapshot → Get Snapshot
snapshot_get_online idb = do
  alt_id ← string_get
  status ← user_status_get idb.status
  name ← string_get
  pure (record idb { alt_id = alt_id; status = status; name = name })

unfoldable pub snapshot_get_fields : Snapshot → Get Snapshot
snapshot_get_fields idb = do
  id ← aware_id_block_get idb.id
  group ← string_get
  online ← gboolean_get idb.online
  let idb' : Snapshot = record idb { id = id; group = group; online = online }
  branch online (snapshot_get_online idb') (pure idb')

-- if(b->ptr < b->buf + end_of_block) mwGetBuffer_advance(b, b->buf + end_of_block - b->ptr);
-- The end of the block counts from the head of the buffer.
unfoldable pub skip_to : ℕ → GetBuffer → GetBuffer
skip_to end_of_block b =
    if ltb b.ptr end_of_block then (get_buffer_advance (end_of_block - b.ptr) b).1 else b

unfoldable pub snapshot_finish : ℕ → Snapshot → Get Snapshot
snapshot_finish end_of_block idb b = (idb, skip_to end_of_block b)

-- `uninit` is what the variable `end_of_block` holds before it is read.
unfoldable pub aware_snapshot_get : ℕ → Snapshot → Get Snapshot
aware_snapshot_get uninit idb = do
  end_of_block ← guint32_get uninit
  idb' ← snapshot_get_fields idb
  snapshot_finish end_of_block idb'

unfoldable pub aware_snapshot_clone : Snapshot → Snapshot → Snapshot
aware_snapshot_clone to from =
    let base : Snapshot = record to {
      id = aware_id_block_clone to.id from.id;
      online = from.online;
    } in
    if from.online
    then record base {
      alt_id = strdup from.alt_id;
      status = user_status_clone base.status from.status;
      name = strdup from.name;
      group = strdup from.group;
    }
    else base

abbrev pub aware_snapshot_clear : Snapshot → Snapshot
aware_snapshot_clear idb = snapshot_zero

-- The fields of a snapshot, as a server sends them behind the end of the block.
unfoldable pub wire_snapshot : Snapshot → List ℕ
wire_snapshot s =
    wire_aware_id_block s.id
    ++ (wire_str s.group
        ++ (wire_bool s.online
            ++ bytes_if s.online
                (wire_str s.alt_id ++ (wire_user_status s.status ++ wire_str s.name))))

pub record IsSnapshot (s : Snapshot) : Type 0 where
  pub id_ok : IsAwareIdBlock s.id
  pub group_ok : IsStr s.group
  pub alt_id_ok : IsStr s.alt_id
  pub status_ok : IsUserStatus s.status
  pub name_ok : IsStr s.name
  pub untimed : s.status.time ≡ 0
  pub brief : s.online ≡ false → (s.alt_id ≡ none) × (s.status ≡ user_status_zero) × (s.name ≡ none)
