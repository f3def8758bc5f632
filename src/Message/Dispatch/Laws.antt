-- ===== src/Message/Dispatch/Laws.antt =====
-- Whole messages: the writers put the wire format, the readers take it and stay in the buffer.
use meanwhile.Base.{
  ℕ, ◌≡◌, refl, arith, true, Option, none, some, List, ◌++◌, append_assoc, append-nil,
}
use meanwhile.Buffer.Put.Laws.{Writes, Writes->>, skip-Writes}
use meanwhile.Buffer.Get.{Get}
use meanwhile.Buffer.Get.Laws.{Reads, Reads->>=, Reads-end, pure-Reads, unless_error-Reads}
use meanwhile.Buffer.Get.Safe.{IsReader, IsReader->>=, pure-IsReader, unless_error-IsReader}
use meanwhile.Basic.Writes.{guint32_put-Writes}
use meanwhile.Common.PrivacyInfo.Laws.{privacy_info_put-Writes}
use meanwhile.Common.UserStatus.Laws.{user_status_put-Writes}
use meanwhile.Message.Head.{MessageHead, message_head_clone}
use meanwhile.Message.Head.Laws.{
  message_head_put-Writes, message_head_get-Reads, message_head_get-IsReader,
  message_head_clone_lem,
}
use meanwhile.Message.Handshake.Laws.{
  handshake_put-Writes, handshake_get-Reads, handshake_get-IsReader, handshake_ack_put-Writes,
  handshake_ack_get-Reads, handshake_ack_get-IsReader,
}
use meanwhile.Message.Login.{login_continue_get, login_continue_put}
use meanwhile.Message.Login.Laws.{
  login_put-Writes, login_get-Reads, login_get-IsReader, login_ack_get-Reads,
  login_ack_get-IsReader, login_redirect_put-Writes, login_redirect_get-Reads,
  login_redirect_get-IsReader,
}
use meanwhile.Message.Status.{set_user_status_put, set_privacy_list_put, sense_service_put}
use meanwhile.Message.Status.Laws.{
  set_user_status_get-Reads, set_user_status_get-IsReader, set_privacy_list_get-Reads,
  set_privacy_list_get-IsReader, sense_service_get-Reads, sense_service_get-IsReader,
  admin_get-Reads, admin_get-IsReader,
}
use meanwhile.Message.Channel.Laws.{
  wire_create_front-append, wire_accept_front-append, channel_create_put-Writes,
  channel_create_get-Reads, channel_create_get-IsReader, channel_accept_put-Writes,
  channel_accept_get-Reads, channel_accept_get-IsReader, channel_send_put-Writes,
  channel_send_get-Reads, channel_send_get-IsReader, channel_destroy_put-Writes,
  channel_destroy_get-Reads, channel_destroy_get-IsReader,
}
use meanwhile.Message.Announce.Laws.{announce_put-Writes, announce_get-Reads, announce_get-IsReader}
use meanwhile.Message.Dispatch.{
  Kind, Message, handshake, handshake_ack, login, login_ack, login_redirect, login_continue,
  channel_create, channel_destroy, channel_send, channel_accept, set_user_status, set_privacy_list,
  sense_service, admin, announce, k_handshake, kind, code, kind_of, head_of, blank, Uninit, read_as,
  body_get, kind_get, message_get, body_put, message_put,
}
use meanwhile.Message.Dispatch.Wire.{
  wire_body, unread, wire_message, received, IsBody, IsMessage, has_writer,
}

pub kind_of-code : (k : Kind) → kind_of (code k) ≡ some k
unfolding kind_of
kind_of-code k_handshake = refl
kind_of-code _ = refl

read_as-Reads :
    {A : Type 0} {m : Get A} {bytes : List ℕ} {a : A} (c : A → Message)
    → Reads m bytes a
    → Reads (read_as c m) bytes (some (c a))
unfolding read_as
read_as-Reads c rm = Reads-end _ rm (pure-Reads _)

read_as-IsReader : {A : Type 0} {m : Get A} (c : A → Message) → IsReader m → IsReader (read_as c m)
unfolding read_as
read_as-IsReader c rm = IsReader->>= _ rm (λ a. pure-IsReader _)

body_get-Reads :
    (u : Uninit) (m : Message)
    → IsBody m
    → Reads (body_get u (blank (kind m) (head_of m))) (wire_body m) (some (received m))
unfolding body_get wire_body blank login_continue_get
body_get-Reads u (handshake m) h = read_as-Reads handshake (handshake_get-Reads m.head.channel m h)
body_get-Reads u (handshake_ack m) h = read_as-Reads handshake_ack (handshake_ack_get-Reads m h)
body_get-Reads u (login m) h = read_as-Reads login (login_get-Reads m h)
body_get-Reads u (login_ack m) h =
    read_as-Reads login_ack (login_ack_get-Reads u.junk 0 m (omega arith) h)
body_get-Reads u (login_redirect m) h = read_as-Reads login_redirect (login_redirect_get-Reads m h)
body_get-Reads u (login_continue m) h = read_as-Reads login_continue (pure-Reads m)
body_get-Reads u (channel_create m) h =
    read_as-Reads channel_create (channel_create_get-Reads (u.skip_, u.count) m h)
body_get-Reads u (channel_destroy m) h =
    read_as-Reads channel_destroy (channel_destroy_get-Reads m h)
body_get-Reads u (channel_send m) h = read_as-Reads channel_send (channel_send_get-Reads m h)
body_get-Reads u (channel_accept m) h =
    read_as-Reads channel_accept (channel_accept_get-Reads u.skip_ m h)
body_get-Reads u (set_user_status m) h =
    read_as-Reads set_user_status (set_user_status_get-Reads m.head m.status h)
body_get-Reads u (set_privacy_list m) h =
    read_as-Reads set_privacy_list (set_privacy_list_get-Reads m.head m.privacy h)
body_get-Reads u (sense_service m) h =
    read_as-Reads sense_service (sense_service_get-Reads m.head m.service h)
body_get-Reads u (admin m) h = read_as-Reads admin (admin_get-Reads m.head m.text h)
body_get-Reads u (announce m) h = read_as-Reads announce (announce_get-Reads u.count m h)

kind_get-Reads :
    (u : Uninit) (m : Message)
    → IsMessage m
    → Reads (kind_get u (kind_of (head_of m).type_) (head_of m)) (wire_body m) (some (received m))
unfolding kind_get
kind_get-Reads u m h =
    rw (← h.typed, kind_of-code (kind m), message_head_clone_lem (head_of m) h.head_ok)
      (body_get-Reads u m h.body_ok)

-- mwMessage_get on a buffer that has no error and goes on with the wire format of a message that
-- fits the wire takes exactly these bytes and gives the message as `received` says, whatever its
-- uninitialised variables hold.
pub message_get-Reads :
    (u : Uninit) (m : Message)
    → IsMessage m
    → Reads (message_get u) (wire_message m) (some (received m))
unfolding message_get wire_message
message_get-Reads u m h =
    Reads->>= _ (message_head_get-Reads u.type_ u.options u.channel (head_of m) h.head_ok)
      (unless_error-Reads none (kind_get-Reads u m h))

body_get-IsReader : (u : Uninit) (m : Message) → IsReader (body_get u m)
unfolding body_get login_continue_get
body_get-IsReader u (handshake m) = read_as-IsReader _ (handshake_get-IsReader m)
body_get-IsReader u (handshake_ack m) = read_as-IsReader _ (handshake_ack_get-IsReader m)
body_get-IsReader u (login m) = read_as-IsReader _ (login_get-IsReader m)
body_get-IsReader u (login_ack m) = read_as-IsReader _ (login_ack_get-IsReader u.junk m)
body_get-IsReader u (login_redirect m) = read_as-IsReader _ (login_redirect_get-IsReader m)
body_get-IsReader u (login_continue m) = read_as-IsReader _ (pure-IsReader m)
body_get-IsReader u (channel_create m) = read_as-IsReader _ (channel_create_get-IsReader _ m)
body_get-IsReader u (channel_destroy m) = read_as-IsReader _ (channel_destroy_get-IsReader m)
body_get-IsReader u (channel_send m) = read_as-IsReader _ (channel_send_get-IsReader m)
body_get-IsReader u (channel_accept m) = read_as-IsReader _ (channel_accept_get-IsReader _ m)
body_get-IsReader u (set_user_status m) = read_as-IsReader _ (set_user_status_get-IsReader m)
body_get-IsReader u (set_privacy_list m) = read_as-IsReader _ (set_privacy_list_get-IsReader m)
body_get-IsReader u (sense_service m) = read_as-IsReader _ (sense_service_get-IsReader m)
body_get-IsReader u (admin m) = read_as-IsReader _ (admin_get-IsReader m)
body_get-IsReader u (announce m) = read_as-IsReader _ (announce_get-IsReader u.count m)

kind_get-IsReader : (u : Uninit) (k : Option Kind) (h : MessageHead) → IsReader (kind_get u k h)
unfolding kind_get
kind_get-IsReader u none h = pure-IsReader none
kind_get-IsReader u (some k) h = body_get-IsReader u (blank k (message_head_clone h))

pub message_get-IsReader : (u : Uninit) → IsReader (message_get u)
unfolding message_get
message_get-IsReader u =
    IsReader->>= _ (message_head_get-IsReader _)
      (λ h. unless_error-IsReader none (kind_get-IsReader u (kind_of h.type_) h))

body_put-Writes :
    (m : Message) → IsBody m → has_writer m ≡ true → Writes (body_put m) (wire_body m ++ unread m)
unfolding body_put wire_body login_continue_put set_user_status_put set_privacy_list_put
    sense_service_put
body_put-Writes (handshake m) h e = rw append-nil (handshake_put-Writes m)
body_put-Writes (handshake_ack m) h e = rw append-nil (handshake_ack_put-Writes m h)
body_put-Writes (login m) h e = login_put-Writes m h
body_put-Writes (login_ack m) h e = cc
body_put-Writes (login_redirect m) h e = rw append-nil (login_redirect_put-Writes m)
body_put-Writes (login_continue m) h e = skip-Writes
body_put-Writes (channel_create m) h e =
    rw (wire_create_front-append m) (channel_create_put-Writes m h)
body_put-Writes (channel_destroy m) h e = rw append-nil (channel_destroy_put-Writes m h)
body_put-Writes (channel_send m) h e = rw append-nil (channel_send_put-Writes m h)
body_put-Writes (channel_accept m) h e =
    rw (wire_accept_front-append m) (channel_accept_put-Writes m h)
body_put-Writes (set_user_status m) h e = rw append-nil (user_status_put-Writes m.status)
body_put-Writes (set_privacy_list m) h e = rw append-nil (privacy_info_put-Writes m.privacy)
body_put-Writes (sense_service m) h e = rw append-nil (guint32_put-Writes m.service)
body_put-Writes (admin m) h e = cc
body_put-Writes (announce m) h e = rw append-nil (announce_put-Writes m)

-- mwMessage_put puts the wire format of the message, and the bytes that its reader leaves.
pub message_put-Writes :
    (m : Message)
    → IsMessage m
    → has_writer m ≡ true
    → Writes (message_put m) (wire_message m ++ unread m)
unfolding message_put wire_message
message_put-Writes m h e =
    rw (append_assoc)
      (Writes->> (message_head_put-Writes (head_of m) h.head_ok) (body_put-Writes m h.body_ok e))
