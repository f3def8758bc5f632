-- ===== src/Message/Dispatch.antt =====
-- mwMessage_new, mwMessage_get and mwMessage_put of src/message.c: a message is made, read and
-- written by the type in its head.
pub mod Wire
pub mod Laws
pub mod Promises
pub mod Types
use meanwhile.Base.{ℕ, ◌≡◌, refl, Bool, true, false, Option, none, some, List, ◌==◌, if◌then◌else◌}
use meanwhile.Buffer.Opaque.{opaque_empty}
use meanwhile.Buffer.Put.{Put, ◌>>◌, skip}
use meanwhile.Buffer.Get.{Get, ◌>>=◌, pure, unless_error}
use meanwhile.Common.PrivacyInfo.{privacy_info_zero}
use meanwhile.Common.UserStatus.{user_status_zero}
use meanwhile.Message.Head.{
  MessageHead, message_head_zero, message_head_put, message_head_get, message_head_clone,
}
use meanwhile.Message.Handshake.{
  Handshake, handshake_zero, handshake_put, handshake_get, HandshakeAck, handshake_ack_zero,
  handshake_ack_put, handshake_ack_get,
}
use meanwhile.Message.Login.{
  Login, login_zero, login_put, login_get, LoginAck, login_ack_zero, login_ack_get, LoginContinue,
  login_continue_put, login_continue_get, LoginRedirect, login_redirect_zero, login_redirect_put,
  login_redirect_get,
}
use meanwhile.Message.Status.{
  SetUserStatus, set_user_status_put, set_user_status_get, SetPrivacyList, set_privacy_list_put,
  set_privacy_list_get, SenseService, sense_service_put, sense_service_get, Admin, admin_get,
}
use meanwhile.Message.Channel.{
  ChannelCreate, channel_create_zero, channel_create_put, channel_create_get, ChannelAccept,
  channel_accept_zero, channel_accept_put, channel_accept_get, ChannelSend, channel_send_zero,
  channel_send_put, channel_send_get, ChannelDestroy, channel_destroy_zero, channel_destroy_put,
  channel_destroy_get,
}
use meanwhile.Message.Announce.{Announce, announce_zero, announce_put, announce_get}

-- enum mwMessageType
pub data Kind : Type 0 where
  k_handshake k_handshake_ack k_login k_login_ack k_login_redirect k_login_continue : Kind
  k_channel_create k_channel_destroy k_channel_send k_channel_accept : Kind
  k_set_user_status k_set_privacy_list k_sense_service k_admin k_announce : Kind

abbrev pub code : Kind → ℕ
code k_handshake = 0x0000
code k_handshake_ack = 0x8000
code k_login = 0x0001
code k_login_ack = 0x8001
code k_login_redirect = 0x0018
code k_login_continue = 0x0016
code k_channel_create = 0x0002
code k_channel_destroy = 0x0003
code k_channel_send = 0x0004
code k_channel_accept = 0x0006
code k_set_user_status = 0x0009
code k_set_privacy_list = 0x000b
code k_sense_service = 0x0011
code k_admin = 0x0019
code k_announce = 0x0022

-- The cases of the switch on a message type; `none` is its default.
unfoldable pub kind_of : ℕ → Option Kind
kind_of t =
    if t == 0x0000
    then some k_handshake
    else if t == 0x8000
    then some k_handshake_ack
    else if t == 0x0001
    then some k_login
    else if t == 0x0018
    then some k_login_redirect
    else if t == 0x0016
    then some k_login_continue
    else if t == 0x8001
    then some k_login_ack
    else if t == 0x0002
    then some k_channel_create
    else if t == 0x0003
    then some k_channel_destroy
    else if t == 0x0004
    then some k_channel_send
    else if t == 0x0006
    then some k_channel_accept
    else if t == 0x0009
    then some k_set_user_status
    else if t == 0x000b
    then some k_set_privacy_list
    else if t == 0x0011
    then some k_sense_service
    else if t == 0x0019
    then some k_admin
    else if t == 0x0022
    then some k_announce
    else none

-- A message is one of the structs that begin with a head; the constructor is the struct that
-- was allocated for it, which the casts of the source go by.
pub data Message : Type 0 where
  handshake : Handshake → Message
  handshake_ack : HandshakeAck → Message
  login : Login → Message
  login_ack : LoginAck → Message
  login_redirect : LoginRedirect → Message
  login_continue : LoginContinue → Message
  channel_create : ChannelCreate → Message
  channel_destroy : ChannelDestroy → Message
  channel_send : ChannelSend → Message
  channel_accept : ChannelAccept → Message
  set_user_status : SetUserStatus → Message
  set_privacy_list : SetPrivacyList → Message
  sense_service : SenseService → Message
  admin : Admin → Message
  announce : Announce → Message

abbrev pub kind : Message → Kind
kind (handshake m) = k_handshake
kind (handshake_ack m) = k_handshake_ack
kind (login m) = k_login
kind (login_ack m) = k_login_ack
kind (login_redirect m) = k_login_redirect
kind (login_continue m) = k_login_continue
kind (channel_create m) = k_channel_create
kind (channel_destroy m) = k_channel_destroy
kind (channel_send m) = k_channel_send
kind (channel_accept m) = k_channel_accept
kind (set_user_status m) = k_set_user_status
kind (set_privacy_list m) = k_set_privacy_list
kind (sense_service m) = k_sense_service
kind (admin m) = k_admin
kind (announce m) = k_announce

-- The head inside of the struct.
abbrev pub head_of : Message → MessageHead
head_of (handshake m) = m.head
head_of (handshake_ack m) = m.head
head_of (login m) = m.head
head_of (login_ack m) = m.head
head_of (login_redirect m) = m.head
head_of (login_continue m) = m.head
head_of (channel_create m) = m.head
head_of (channel_destroy m) = m.head
head_of (channel_send m) = m.head
head_of (channel_accept m) = m.head
head_of (set_user_status m) = m.head
head_of (set_privacy_list m) = m.head
head_of (sense_service m) = m.head
head_of (admin m) = m.head
head_of (announce m) = m.head

-- g_new0 of the struct for a kind, with the given head.
unfoldable pub blank : Kind → MessageHead → Message
blank k_handshake h = handshake (handshake_zero h)
blank k_handshake_ack h = handshake_ack (handshake_ack_zero h)
blank k_login h = login (login_zero h)
blank k_login_ack h = login_ack (login_ack_zero h)
blank k_login_redirect h = login_redirect (login_redirect_zero h)
blank k_login_continue h = login_continue (record { head = h })
blank k_channel_create h = channel_create (channel_create_zero h)
blank k_channel_destroy h = channel_destroy (channel_destroy_zero h)
blank k_channel_send h = channel_send (channel_send_zero h)
blank k_channel_accept h = channel_accept (channel_accept_zero h)
blank k_set_user_status h = set_user_status (record { head = h; status = user_status_zero })
blank k_set_privacy_list h = set_privacy_list (record { head = h; privacy = privacy_info_zero })
blank k_sense_service h = sense_service (record { head = h; service = 0 })
blank k_admin h = admin (record { head = h; text = none })
blank k_announce h = announce (announce_zero h)

abbrev pub new_kind : ℕ → Option Kind → Option Message
new_kind t none = none
new_kind t (some k) = some (blank k (record message_head_zero { type_ = t }))

unfoldable pub message_new : ℕ → Option Message
message_new t = new_kind t (kind_of t)

-- What the local variables of the readers hold before they are read.
pub record Uninit : Type 0 where
  pub type_ : ℕ
  pub options : ℕ
  pub channel : ℕ
  pub junk : ℕ
  pub skip_ : ℕ
  pub count : ℕ

-- The reader of a struct, and the struct as a message.
unfoldable pub read_as : {A : Type 0} → (A → Message) → Get A → Get (Option Message)
read_as c m = do a ← m; pure (some (c a))

-- v ## _get(b, (struct t * ) msg) on the new message.
unfoldable pub body_get : Uninit → Message → Get (Option Message)
body_get u (handshake m) = read_as handshake (handshake_get m)
body_get u (handshake_ack m) = read_as handshake_ack (handshake_ack_get m)
body_get u (login m) = read_as login (login_get m)
body_get u (login_ack m) = read_as login_ack (login_ack_get u.junk m)
body_get u (login_redirect m) = read_as login_redirect (login_redirect_get m)
body_get u (login_continue m) = read_as login_continue (login_continue_get m)
body_get u (channel_create m) = read_as channel_create (channel_create_get (u.skip_, u.count) m)
body_get u (channel_destroy m) = read_as channel_destroy (channel_destroy_get m)
body_get u (channel_send m) = read_as channel_send (channel_send_get m)
body_get u (channel_accept m) = read_as channel_accept (channel_accept_get u.skip_ m)
body_get u (set_user_status m) = read_as set_user_status (set_user_status_get m)
body_get u (set_privacy_list m) = read_as set_privacy_list (set_privacy_list_get m)
body_get u (sense_service m) = read_as sense_service (sense_service_get m)
body_get u (admin m) = read_as admin (admin_get m)
body_get u (announce m) = read_as announce (announce_get u.count m)

unfoldable pub kind_get : Uninit → Option Kind → MessageHead → Get (Option Message)
kind_get u none head = pure none
kind_get u (some k) head = body_get u (blank k (message_head_clone head))

-- `none` is NULL. After an error in the body the message is returned all the same.
unfoldable pub message_get : Uninit → Get (Option Message)
message_get u = do
  head ←
      message_head_get (record {
        type_ = u.type_;
        options = u.options;
        channel = u.channel;
        attribs = opaque_empty;
      })
  unless_error none (kind_get u (kind_of head.type_) head)

-- v ## _put(b, (struct t * ) msg); LOGIN_ACK and ADMIN have no writer.
unfoldable pub body_put : Message → Put
body_put (handshake m) = handshake_put m
body_put (handshake_ack m) = handshake_ack_put m
body_put (login m) = login_put m
body_put (login_ack m) = skip
body_put (login_redirect m) = login_redirect_put m
body_put (login_continue m) = login_continue_put m
body_put (channel_create m) = channel_create_put m
body_put (channel_destroy m) = channel_destroy_put m
body_put (channel_send m) = channel_send_put m
body_put (channel_accept m) = channel_accept_put m
body_put (set_user_status m) = set_user_status_put m
body_put (set_privacy_list m) = set_privacy_list_put m
body_put (sense_service m) = sense_service_put m
body_put (admin m) = skip
body_put (announce m) = announce_put m

unfoldable pub message_put : Message → Put
message_put msg = do message_head_put (head_of msg); body_put msg
