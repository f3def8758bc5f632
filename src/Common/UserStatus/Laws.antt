-- ===== src/Common/UserStatus/Laws.antt =====
-- Writing and reading a status.
use meanwhile.Buffer.Put.Laws.{Writes}
use meanwhile.Buffer.Get.Laws.{Reads, Reads->>=, Reads-end, pure-Reads, unless_error-Reads}
use meanwhile.Buffer.Get.Safe.{IsReader}
use meanwhile.Basic.Reads.{string_get-Reads, guint16_get-Reads, guint32_get-Reads}
use meanwhile.Common.Rules.{writers, safe_readers}
use meanwhile.Common.UserStatus.{
  UserStatus, user_status_put, user_status_get, wire_user_status, IsUserStatus,
}

pub user_status_put-Writes : (s : UserStatus) → Writes (user_status_put s) (wire_user_status s)
unfolding user_status_put wire_user_status
user_status_put-Writes s = search writers depth 12

pub user_status_get-IsReader : (old : UserStatus) → IsReader (user_status_get old)
unfolding user_status_get
user_status_get-IsReader old = search safe_readers depth 14

-- mwUserStatus_get takes exactly the wire format of a status that fits the wire and gives it with
-- its time set to 0, whatever the target held.
pub user_status_get-Reads :
    (old s : UserStatus)
    → IsUserStatus s
    → Reads (user_status_get old) (wire_user_status s) (record s { time = 0 })
unfolding user_status_get wire_user_status
user_status_get-Reads old s h = unless_error-Reads old (
    Reads->>= _ (guint16_get-Reads _ _ h.status_ok) (
      Reads->>= _ (guint32_get-Reads _ _ h.time_ok)
        (Reads-end _ (string_get-Reads _ h.desc_ok) (pure-Reads _))))
