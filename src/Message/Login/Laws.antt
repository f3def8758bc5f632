-- ===== src/Message/Login/Laws.antt =====
-- Writing and reading the messages of a login.
use meanwhile.Base.{ℕ, ◌++◌, append_assoc}
use meanwhile.Buffer.Put.Laws.{Writes, Writes->>}
use meanwhile.Buffer.Get.Laws.{Reads, Reads->>=, Reads-end, pure-Reads, unless_error-Reads}
use meanwhile.Buffer.Get.Safe.{IsReader}
use meanwhile.Basic.Writes.{guint16_put-Writes, string_put-Writes, opaque_put-Writes}
use meanwhile.Basic.Reads.{guint16_get-Reads, string_get-Reads, opaque_get-Reads}
use meanwhile.Basic.Wire.{wire16, IsWord16}
use meanwhile.Common.LoginInfo.Laws.{login_info_get-Reads, login_info_get-IsReader}
use meanwhile.Common.PrivacyInfo.Laws.{privacy_info_get-Reads, privacy_info_get-IsReader}
use meanwhile.Common.UserStatus.Laws.{user_status_get-Reads, user_status_get-IsReader}
use meanwhile.Common.Rules.{writers, safe_readers}
use meanwhile.Message.Login.{
  Login, login_zero, login_put, login_get, LoginAck, login_ack_zero, login_ack_get, LoginRedirect,
  login_redirect_zero, login_redirect_get, login_redirect_put, wire_login, wire_login_ack,
  wire_login_redirect, IsLogin, IsLoginAck, IsLoginRedirect,
}

-- Two bytes more than login_get reads.
pub login_put-Writes : (m : Login) → IsLogin m → Writes (login_put m) (wire_login m ++ wire16 0)
unfolding login_put wire_login
login_put-Writes m h =
    rw (append_assoc, append_assoc, append_assoc)
      (Writes->> (guint16_put-Writes m.login_type) (
        Writes->> (string_put-Writes m.name) (
          Writes->> (opaque_put-Writes m.auth_data h.auth_data_ok)
            (Writes->> (guint16_put-Writes m.auth_type) (guint16_put-Writes 0)))))

pub login_get-IsReader : (old : Login) → IsReader (login_get old)
unfolding login_get
login_get-IsReader old = search safe_readers depth 12

pub login_get-Reads :
    (m : Login) → IsLogin m → Reads (login_get (login_zero m.head)) (wire_login m) m
unfolding login_get wire_login
login_get-Reads m h = unless_error-Reads _ (
    Reads->>= _ (guint16_get-Reads _ _ h.login_type_ok) (
      Reads->>= _ (string_get-Reads _ h.name_ok) (
        Reads->>= _ (opaque_get-Reads _ h.auth_data_ok)
          (Reads-end _ (guint16_get-Reads _ _ h.auth_type_ok) (pure-Reads _)))))

pub login_ack_get-IsReader : (uninit : ℕ) (old : LoginAck) → IsReader (login_ack_get uninit old)
unfolding login_ack_get
login_ack_get-IsReader uninit old =
    search
      (safe_readers, login_info_get-IsReader, privacy_info_get-IsReader, user_status_get-IsReader)
      depth 12

-- The time of the status is lost.
pub login_ack_get-Reads :
    (uninit junk : ℕ) (m : LoginAck)
    → IsWord16 junk
    → IsLoginAck m
    → Reads
        (login_ack_get uninit (login_ack_zero m.head))
        (wire_login_ack junk m)
        (record m { status = record (m.status) { time = 0 } })
unfolding login_ack_get wire_login_ack
login_ack_get-Reads uninit junk m j h = unless_error-Reads _ (
    Reads->>= _ (login_info_get-Reads m.login h.login_ok) (
      Reads->>= _ (guint16_get-Reads uninit junk j) (
        Reads->>= _ (privacy_info_get-Reads m.privacy h.privacy_ok)
          (Reads-end _ (user_status_get-Reads _ m.status h.status_ok) (pure-Reads _)))))

pub login_redirect_put-Writes :
    (m : LoginRedirect) → Writes (login_redirect_put m) (wire_login_redirect m)
unfolding login_redirect_put wire_login_redirect
login_redirect_put-Writes m = search writers

pub login_redirect_get-IsReader : (old : LoginRedirect) → IsReader (login_redirect_get old)
unfolding login_redirect_get
login_redirect_get-IsReader old = search safe_readers depth 8

pub login_redirect_get-Reads :
    (m : LoginRedirect)
    → IsLoginRedirect m
    → Reads (login_redirect_get (login_redirect_zero m.head)) (wire_login_redirect m) m
unfolding login_redirect_get wire_login_redirect
login_redirect_get-Reads m h = unless_error-Reads _ (
    Reads->>= _ (string_get-Reads _ h.host_ok)
      (Reads-end _ (string_get-Reads _ h.server_id_ok) (pure-Reads _)))
