-- ===== src/Message/Dispatch/Wire.antt =====
-- The wire format of a whole message, and what of a message its reader sees.
use meanwhile.Base.{ℕ, ◌≡◌, Bool, true, false, List, [], ◌++◌}
use mathlib.Core.List.{reverse}
use meanwhile.Basic.Wire.{wire16, wire32, wire_str, IsWord32, IsStr}
use meanwhile.Common.PrivacyInfo.{wire_privacy_info, IsPrivacyInfo}
use meanwhile.Common.UserStatus.{wire_user_status, IsUserStatus}
use meanwhile.Message.Head.{wire_message_head, IsMessageHead}
use meanwhile.Message.Handshake.{wire_handshake, wire_handshake_ack, IsHandshake, IsHandshakeAck}
use meanwhile.Message.Login.{
  wire_login, wire_login_ack, wire_login_redirect, IsLogin, IsLoginAck, IsLoginRedirect,
}
use meanwhile.Message.Encrypt.{offer_left, accept_left}
use meanwhile.Message.Channel.Wire.{
  wire_channel_create, wire_channel_accept, wire_channel_send, wire_channel_destroy,
  IsChannelCreate, IsChannelAccept, IsChannelSend, IsChannelDestroy,
}
use meanwhile.Message.Announce.{wire_announce, IsAnnounce}
use meanwhile.Message.Dispatch.{
  Message, handshake, handshake_ack, login, login_ack, login_redirect, login_continue,
  channel_create, channel_destroy, channel_send, channel_accept, set_user_status, set_privacy_list,
  sense_service, admin, announce, kind, code, head_of,
}

-- The bytes that the reader of the body takes.
unfoldable pub wire_body : Message → List ℕ
wire_body (handshake m) = wire_handshake m
wire_body (handshake_ack m) = wire_handshake_ack m
wire_body (login m) = wire_login m
wire_body (login_ack m) = wire_login_ack 0 m
wire_body (login_redirect m) = wire_login_redirect m
wire_body (login_continue m) = []
wire_body (channel_create m) = wire_channel_create m
wire_body (channel_destroy m) = wire_channel_destroy m
wire_body (channel_send m) = wire_channel_send m
wire_body (channel_accept m) = wire_channel_accept m
wire_body (set_user_status m) = wire_user_status m.status
wire_body (set_privacy_list m) = wire_privacy_info m.privacy
wire_body (sense_service m) = wire32 m.service
wire_body (admin m) = wire_str m.text
wire_body (announce m) = wire_announce m

-- The bytes that the writer puts behind them.
abbrev pub unread : Message → List ℕ
unread (login m) = wire16 0
unread (channel_create m) = offer_left m.encrypt.items
unread (channel_accept m) = accept_left m.encrypt.item
unread m = []

unfoldable pub wire_message : Message → List ℕ
wire_message m = wire_message_head (head_of m) ++ wire_body m

-- The message that comes out: the time of a status is 0, and the recipients of an announcement
-- stand in the opposite order.
abbrev pub received : Message → Message
received (login_ack m) = login_ack (record m { status = record (m.status) { time = 0 } })
received (set_user_status m) =
    set_user_status (record m { status = record (m.status) { time = 0 } })
received (announce m) = announce (record m { recipients = reverse m.recipients })
received m = m

abbrev pub IsBody : Message → Type 0
IsBody (handshake m) = IsHandshake m
IsBody (handshake_ack m) = IsHandshakeAck m
IsBody (login m) = IsLogin m
IsBody (login_ack m) = IsLoginAck m
IsBody (login_redirect m) = IsLoginRedirect m
IsBody (login_continue m) = Unit {0}
IsBody (channel_create m) = IsChannelCreate m
IsBody (channel_destroy m) = IsChannelDestroy m
IsBody (channel_send m) = IsChannelSend m
IsBody (channel_accept m) = IsChannelAccept m
IsBody (set_user_status m) = IsUserStatus m.status
IsBody (set_privacy_list m) = IsPrivacyInfo m.privacy
IsBody (sense_service m) = IsWord32 m.service
IsBody (admin m) = IsStr m.text
IsBody (announce m) = IsAnnounce m

-- A message whose fields fit the wire, whose unsent fields are zero, and whose type is its own.
pub record IsMessage (m : Message) : Type 0 where
  pub head_ok : IsMessageHead (head_of m)
  pub typed : code (kind m) ≡ (head_of m).type_
  pub body_ok : IsBody m

-- The messages that have a writer.
abbrev pub has_writer : Message → Bool
has_writer (login_ack m) = false
has_writer (admin m) = false
has_writer m = true
