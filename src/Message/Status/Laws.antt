-- ===== src/Message/Status/Laws.antt =====
-- Writing and reading the messages with one part.
use meanwhile.Base.{ℕ, none}
use meanwhile.Buffer.Get.Laws.{Reads, Reads-end, pure-Reads, unless_error-Reads}
use meanwhile.Buffer.Get.Safe.{IsReader}
use meanwhile.Basic.{Str}
use meanwhile.Basic.Reads.{guint32_get-Reads, string_get-Reads}
use meanwhile.Basic.Wire.{wire32, wire_str, IsWord32, IsStr}
use meanwhile.Common.PrivacyInfo.{PrivacyInfo, privacy_info_zero, wire_privacy_info, IsPrivacyInfo}
use meanwhile.Common.PrivacyInfo.Laws.{privacy_info_get-Reads, privacy_info_get-IsReader}
use meanwhile.Common.UserStatus.{UserStatus, user_status_zero, wire_user_status, IsUserStatus}
use meanwhile.Common.UserStatus.Laws.{user_status_get-Reads, user_status_get-IsReader}
use meanwhile.Common.Rules.{safe_readers}
use meanwhile.Message.Head.{MessageHead}
use meanwhile.Message.Status.{
  SetUserStatus, set_user_status_get, SetPrivacyList, set_privacy_list_get, SenseService,
  sense_service_get, Admin, admin_get,
}

pub set_user_status_get-IsReader : (old : SetUserStatus) → IsReader (set_user_status_get old)
unfolding set_user_status_get
set_user_status_get-IsReader old = search (safe_readers, user_status_get-IsReader)

pub set_user_status_get-Reads :
    (head : MessageHead) (s : UserStatus)
    → IsUserStatus s
    → Reads
        (set_user_status_get (record { head = head; status = user_status_zero }))
        (wire_user_status s)
        (record { head = head; status = record s { time = 0 } })
unfolding set_user_status_get
set_user_status_get-Reads head s h =
    unless_error-Reads _ (Reads-end _ (user_status_get-Reads _ s h) (pure-Reads _))

pub set_privacy_list_get-IsReader : (old : SetPrivacyList) → IsReader (set_privacy_list_get old)
unfolding set_privacy_list_get
set_privacy_list_get-IsReader old = search (safe_readers, privacy_info_get-IsReader)

pub set_privacy_list_get-Reads :
    (head : MessageHead) (p : PrivacyInfo)
    → IsPrivacyInfo p
    → Reads
        (set_privacy_list_get (record { head = head; privacy = privacy_info_zero }))
        (wire_privacy_info p)
        (record { head = head; privacy = p })
unfolding set_privacy_list_get
set_privacy_list_get-Reads head p h =
    unless_error-Reads _ (Reads-end _ (privacy_info_get-Reads p h) (pure-Reads _))

pub sense_service_get-IsReader : (old : SenseService) → IsReader (sense_service_get old)
unfolding sense_service_get
sense_service_get-IsReader old = search safe_readers

pub sense_service_get-Reads :
    (head : MessageHead) (n : ℕ)
    → IsWord32 n
    → Reads
        (sense_service_get (record { head = head; service = 0 }))
        (wire32 n)
        (record { head = head; service = n })
unfolding sense_service_get
sense_service_get-Reads head n h =
    unless_error-Reads _ (Reads-end _ (guint32_get-Reads 0 n h) (pure-Reads _))

pub admin_get-IsReader : (old : Admin) → IsReader (admin_get old)
unfolding admin_get
admin_get-IsReader old = search safe_readers

pub admin_get-Reads :
    (head : MessageHead) (s : Str)
    → IsStr s
    → Reads
        (admin_get (record { head = head; text = none }))
        (wire_str s)
        (record { head = head; text = s })
unfolding admin_get
admin_get-Reads head s h = Reads-end _ (string_get-Reads s h) (pure-Reads _)
