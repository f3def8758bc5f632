-- ===== src/Message/Status.antt =====
-- The messages with one part: struct mwMsgSetUserStatus, mwMsgSetPrivacyList, mwMsgSenseService
-- and mwMsgAdmin (src/message.c, src/mw_message.h).
pub mod Laws
use meanwhile.Base.{ℕ, none, List}
use meanwhile.Buffer.Put.{Put}
use meanwhile.Buffer.Get.{Get, ◌>>=◌, pure, unless_error}
use meanwhile.Basic.{Str, guint32_put, guint32_get, string_get}
use meanwhile.Common.PrivacyInfo.{
  PrivacyInfo, privacy_info_zero, privacy_info_put, privacy_info_get,
}
use meanwhile.Common.UserStatus.{UserStatus, user_status_zero, user_status_put, user_status_get}
use meanwhile.Message.Head.{MessageHead}

pub record SetUserStatus : Type 0 where
  pub head : MessageHead
  pub status : UserStatus

unfoldable pub set_user_status_put : SetUserStatus → Put
set_user_status_put msg = user_status_put msg.status

unfoldable pub set_user_status_get : SetUserStatus → Get SetUserStatus
set_user_status_get msg =
    unless_error msg do status ← user_status_get msg.status; pure (record msg { status = status })

pub record SetPrivacyList : Type 0 where
  pub head : MessageHead
  pub privacy : PrivacyInfo

unfoldable pub set_privacy_list_put : SetPrivacyList → Put
set_privacy_list_put msg = privacy_info_put msg.privacy

unfoldable pub set_privacy_list_get : SetPrivacyList → Get SetPrivacyList
set_privacy_list_get msg =
    unless_error msg
      do privacy ← privacy_info_get msg.privacy; pure (record msg { privacy = privacy })

pub record SenseService : Type 0 where
  pub head : MessageHead
  pub service : ℕ

unfoldable pub sense_service_put : SenseService → Put
sense_service_put msg = guint32_put msg.service

unfoldable pub sense_service_get : SenseService → Get SenseService
sense_service_get msg =
    unless_error msg do service ← guint32_get msg.service; pure (record msg { service = service })

pub record Admin : Type 0 where
  pub head : MessageHead
  pub text : Str

unfoldable pub admin_get : Admin → Get Admin
admin_get msg = do text ← string_get; pure (record msg { text = text })
