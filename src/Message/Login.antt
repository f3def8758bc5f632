-- ===== src/Message/Login.antt =====
-- The messages of a login: struct mwMsgLogin, mwMsgLoginAck, mwMsgLoginContinue and
-- mwMsgLoginRedirect (src/message.c, src/mw_message.h).
pub mod Laws
use meanwhile.Base.{ℕ, ◌≡◌, none, some, List, [], ◌++◌}
use meanwhile.Buffer.Opaque.{Opaque, opaque_empty, opaque_bytes}
use meanwhile.Buffer.Put.{Put, ◌>>◌, skip}
use meanwhile.Buffer.Get.{Get, ◌>>=◌, pure, unless_error}
use meanwhile.Basic.{Str, guint16_put, guint16_get, string_put, string_get, opaque_put, opaque_get}
use meanwhile.Basic.Wire.{wire16, wire_str, wire_opaque, IsWord16, IsStr, IsOpaque}
use meanwhile.Common.LoginInfo.{
  LoginInfo, login_info_zero, login_info_get, wire_login_info, IsLoginInfo,
}
use meanwhile.Common.PrivacyInfo.{
  PrivacyInfo, privacy_info_zero, privacy_info_get, wire_privacy_info, IsPrivacyInfo,
}
use meanwhile.Common.UserStatus.{
  UserStatus, user_status_zero, user_status_get, wire_user_status, IsUserStatus,
}
use meanwhile.Message.Head.{MessageHead}

pub record Login : Type 0 where
  pub head : MessageHead
  pub login_type : ℕ
  pub name : Str
  pub auth_type : ℕ
  pub auth_data : Opaque

abbrev pub login_zero : MessageHead → Login
login_zero head = record {
  head = head;
  login_type = 0;
  name = none;
  auth_type = 0;
  auth_data = opaque_empty;
}

unfoldable pub login_put : Login → Put
login_put msg = do
  guint16_put msg.login_type
  string_put msg.name
  opaque_put (some msg.auth_data)
  guint16_put msg.auth_type
  guint16_put 0x0000

unfoldable pub login_get : Login → Get Login
login_get msg = unless_error msg do
  login_type ← guint16_get msg.login_type
  name ← string_get
  auth_data ← opaque_get
  auth_type ← guint16_get msg.auth_type
  pure (record msg {
    login_type = login_type;
    name = name;
    auth_data = auth_data;
    auth_type = auth_type;
  })

pub record LoginAck : Type 0 where
  pub head : MessageHead
  pub login : LoginInfo
  pub privacy : PrivacyInfo
  pub status : UserStatus

abbrev pub login_ack_zero : MessageHead → LoginAck
login_ack_zero head = record {
  head = head;
  login = login_info_zero;
  privacy = privacy_info_zero;
  status = user_status_zero;
}

-- `uninit` is what the variable `junk` holds before it is read.
unfoldable pub login_ack_get : ℕ → LoginAck → Get LoginAck
login_ack_get uninit msg = unless_error msg do
  login ← login_info_get msg.login
  junk ← guint16_get uninit
  privacy ← privacy_info_get msg.privacy
  status ← user_status_get msg.status
  pure (record msg { login = login; privacy = privacy; status = status })

pub record LoginContinue : Type 0 where
  pub head : MessageHead

unfoldable pub login_continue_put : LoginContinue → Put
login_continue_put msg = skip

unfoldable pub login_continue_get : LoginContinue → Get LoginContinue
login_continue_get msg = pure msg

pub record LoginRedirect : Type 0 where
  pub head : MessageHead
  pub host : Str
  pub server_id : Str

abbrev pub login_redirect_zero : MessageHead → LoginRedirect
login_redirect_zero head = record { head = head; host = none; server_id = none }

unfoldable pub login_redirect_get : LoginRedirect → Get LoginRedirect
login_redirect_get msg = unless_error msg do
  host ← string_get
  server_id ← string_get
  pure (record msg { host = host; server_id = server_id })

unfoldable pub login_redirect_put : LoginRedirect → Put
login_redirect_put msg = do string_put msg.host; string_put msg.server_id

-- What login_get reads; login_put writes two zero bytes behind it.
unfoldable pub wire_login : Login → List ℕ
wire_login m =
    wire16 m.login_type
    ++ (wire_str m.name ++ (wire_opaque (opaque_bytes m.auth_data) ++ wire16 m.auth_type))

-- As a server sends it, with some number `junk` behind the login.
unfoldable pub wire_login_ack : ℕ → LoginAck → List ℕ
wire_login_ack junk m =
    wire_login_info m.login
    ++ (wire16 junk ++ (wire_privacy_info m.privacy ++ wire_user_status m.status))

unfoldable pub wire_login_redirect : LoginRedirect → List ℕ
wire_login_redirect m = wire_str m.host ++ wire_str m.server_id

pub record IsLogin (m : Login) : Type 0 where
  pub login_type_ok : IsWord16 m.login_type
  pub name_ok : IsStr m.name
  pub auth_type_ok : IsWord16 m.auth_type
  pub auth_data_ok : IsOpaque m.auth_data

pub record IsLoginAck (m : LoginAck) : Type 0 where
  pub login_ok : IsLoginInfo m.login
  pub privacy_ok : IsPrivacyInfo m.privacy
  pub status_ok : IsUserStatus m.status

pub record IsLoginRedirect (m : LoginRedirect) : Type 0 where
  pub host_ok : IsStr m.host
  pub server_id_ok : IsStr m.server_id
