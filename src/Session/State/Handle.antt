-- ===== src/Session/State/Handle.antt =====
-- What a session does with each message that it receives: the handlers that session_process of
-- src/session.c calls. What is meant for a channel is handed on in `log`.
use meanwhile.Base.{
  ℕ, Option, none, some, List, [], ◌∷◌, length, leb, ◌==◌, ◌%◌, ◌^◌, if◌then◌else◌,
}
use meanwhile.Buffer.Get.{get_buffer_wrap}
use meanwhile.Basic.{Str}
use meanwhile.Common.LoginInfo.{login_info_clone, login_info_clear}
use meanwhile.Common.PrivacyInfo.{privacy_info_clone, privacy_info_clear}
use meanwhile.Message.Handshake.{HandshakeAck}
use meanwhile.Message.Login.{Login, login_zero, LoginAck, LoginRedirect}
use meanwhile.Message.Status.{SetPrivacyList, SenseService, Admin}
use meanwhile.Message.Channel.{ChannelDestroy}
use meanwhile.Message.Announce.{Announce}
use meanwhile.Message.Dispatch.{
  Message, handshake_ack, login, login_ack, login_redirect, channel_create, channel_destroy,
  channel_send, channel_accept, set_user_status, set_privacy_list, sense_service, admin, announce,
  k_login, Uninit, message_get,
}
use meanwhile.Service.{Service, service_start}
use meanwhile.Session.Recv.{session_recv_all}
use meanwhile.Session.Auth.{compose_auth_rc2_40, compose_auth_rc2_128}
use meanwhile.Session.State.{
  Session, World, s_handshake, s_handshake_ack, s_login, s_login_redir, s_login_cont, s_login_ack,
  s_started, no_info, host, same_state, number, auth_user_id, auth_password, client_type_id,
  server_ver_major, server_ver_minor, on_set_privacy_info, on_admin, on_announce, to_channels, tell,
  property_set, property_get, number_of, string_of, change_state, set_user_status_recv, new_head,
  session_send, session_stop, send_all, call_services,
}

-- The text of a password; of one that is NULL, at which compose_auth_rc2_40 would read, it is
-- what would be there.
abbrev pub password : World → Str → List ℕ
password world none = world.at_null
password world (some cs) = cs

-- The LOGIN message, for the properties and the log of the session.
abbrev pub login_message : World → HandshakeAck → Session → Login
login_message world msg s =
    let pw = string_of (property_get auth_password s.attributes) in
    let log = record (login_zero (new_head k_login)) {
      login_type = number_of (property_get client_type_id s.attributes) % 2 ^ 16;
      name = string_of (property_get auth_user_id s.attributes);
    } in
    if leb 64 msg.data_.len
    then record log {
      auth_type = 0x0004;
      auth_data =
          compose_auth_rc2_128 world.mpi world.in_front (world.dh_random s.log) pw msg.magic
            msg.data_;
    }
    else record log {
      auth_type = 0x0002;
      auth_data = compose_auth_rc2_40 (world.key_random s.log) (password world pw);
    }

-- The part of HANDSHAKE_ACK_recv behind the test for a continued login.
unfoldable pub send_login : World → HandshakeAck → Session → Session
send_login world msg s =
    let known =
      property_set server_ver_minor (number msg.minor)
        (property_set server_ver_major (number msg.major) s) in
    let out = session_send world (login (login_message world msg known)) known in
    if out.1 then out.0 else change_state s_login no_info out.0

unfoldable pub handshake_ack_recv : World → HandshakeAck → Session → Session
handshake_ack_recv world msg s =
    if same_state s.state s_login_cont
    then change_state s_login no_info (change_state s_handshake_ack no_info s)
    else if same_state s.state s_handshake
    then send_login world msg (change_state s_handshake_ack no_info s)
    else s

unfoldable pub login_ack_recv : World → LoginAck → Session → Session
login_ack_recv world msg s =
    if same_state s.state s_login
    then (let known = record s { login = login_info_clone (login_info_clear s.login) msg.login } in
        let acked = change_state s_login_ack no_info known in
        change_state s_started no_info (call_services world service_start acked))
    else s

unfoldable pub channel_destroy_recv : World → ChannelDestroy → Session → Session
channel_destroy_recv world msg s =
    if msg.head.channel == 0
    then session_stop world msg.reason s
    else tell (to_channels (channel_destroy msg)) s

unfoldable pub set_privacy_list_recv : SetPrivacyList → Session → Session
set_privacy_list_recv msg s =
    tell on_set_privacy_info
      (record s { privacy = privacy_info_clone (privacy_info_clear s.privacy) msg.privacy })

-- mwSession_getService and mwService_start, of the one service with this type.
abbrev pub start_type : ℕ → List Service → List Service × List Message
start_type type_ [] = ([], [])
start_type type_ (srvc ∷ srvcs) =
    let rest = start_type type_ srvcs in
    let started = service_start srvc in
    if srvc.type_ == type_ then (started.0 ∷ srvcs, started.1) else (srvc ∷ rest.0, rest.1)

unfoldable pub sense_service_recv : World → SenseService → Session → Session
sense_service_recv world msg s =
    let started = start_type msg.service s.services in
    record (send_all world started.1 s) { services = started.0 }

unfoldable pub admin_recv : Admin → Session → Session
admin_recv msg s = tell (on_admin msg.text) s

unfoldable pub announce_recv : Announce → Session → Session
announce_recv msg s = tell (on_announce msg.sender msg.may_reply msg.text) s

unfoldable pub login_redirect_recv : LoginRedirect → Session → Session
login_redirect_recv msg s = change_state s_login_redir (host msg.host) s

-- The switch of session_process.
unfoldable pub message_recv : World → Message → Session → Session
message_recv world (handshake_ack msg) s = handshake_ack_recv world msg s
message_recv world (login_redirect msg) s = login_redirect_recv msg s
message_recv world (login_ack msg) s = login_ack_recv world msg s
message_recv world (channel_create msg) s = tell (to_channels (channel_create msg)) s
message_recv world (channel_destroy msg) s = channel_destroy_recv world msg s
message_recv world (channel_send msg) s = tell (to_channels (channel_send msg)) s
message_recv world (channel_accept msg) s = tell (to_channels (channel_accept msg)) s
message_recv world (set_privacy_list msg) s = set_privacy_list_recv msg s
message_recv world (set_user_status msg) s = set_user_status_recv msg s
message_recv world (sense_service msg) s = sense_service_recv world msg s
message_recv world (admin msg) s = admin_recv msg s
message_recv world (announce msg) s = announce_recv msg s
message_recv world _ s = s

abbrev pub parsed_recv : World → Option Message → Session → Session
parsed_recv world none s = s
parsed_recv world (some msg) s = message_recv world msg s

-- session_process on the bytes of a message.
unfoldable pub handle : World → Uninit → List ℕ → Session → Session
handle world u bytes s =
    parsed_recv world
      (message_get u (get_buffer_wrap (some (record { len = length bytes; data_ = some bytes })))).0
      s

-- mwSession_recv of the session. A handler that stops the session frees the buffer, which is free
-- already or will be freed by session_recv_cont.
unfoldable pub session_receive : World → Uninit → List ℕ → Session → Session
session_receive world u bytes s =
    let r = session_recv_all (handle world u) s.buffer s bytes in record (r.1) { buffer = r.0 }
