-- ===== src/Session/State.antt =====
-- The states of a session of src/session.c, what its callers ask of it, and what it does with each
-- message. Callbacks of the session's handler are recorded in `log` in the order of their calls,
-- the last one first, and do not call the session in turn.
pub mod Handle
pub mod Steps
pub mod Calls
pub mod Keeps
pub mod Input
pub mod Reach
pub mod Promises
use meanwhile.Base.{
  ℕ, ◌%◌, ◌^◌, ◌≡◌, Bool, true, false, not, ◌||◌, ◌&&◌, Option, none, some, List, [], ◌∷◌, map, leb,
  ◌==◌, if◌then◌else◌,
}
use meanwhile.Buffer.Opaque.{Opaque}
use meanwhile.Basic.{Str}
use meanwhile.Common.LoginInfo.{LoginInfo, login_info_zero}
use meanwhile.Common.UserStatus.{UserStatus, user_status_zero, user_status_clone, user_status_clear}
use meanwhile.Common.PrivacyInfo.{PrivacyInfo, privacy_info_zero}
use meanwhile.Message.Head.{MessageHead, message_head_zero}
use meanwhile.Message.Handshake.{Handshake, handshake_zero, sends_host}
use meanwhile.Message.Status.{SetUserStatus}
use meanwhile.Message.Channel.{channel_destroy_zero}
use meanwhile.Message.Dispatch.{
  Kind, Message, code, handshake, channel_destroy, login_continue, set_user_status, k_handshake,
  k_channel_destroy, k_login_continue,
}
use meanwhile.Service.{Service, service_stop}
use meanwhile.Cipher.Rc2128.{Mpi}
use meanwhile.Session.Recv.{Recv, session_buf_free}
use meanwhile.Session.Send.{frame_bytes}

-- enum mwSessionState
pub data SessionState : Type 0 where
  s_starting s_handshake s_handshake_ack s_login s_login_redir s_login_ack : SessionState
  s_started s_stopping s_stopped s_unknown s_login_cont : SessionState

abbrev pub state_code : SessionState → ℕ
state_code s_starting = 0
state_code s_handshake = 1
state_code s_handshake_ack = 2
state_code s_login = 3
state_code s_login_redir = 4
state_code s_login_ack = 5
state_code s_started = 6
state_code s_stopping = 7
state_code s_stopped = 8
state_code s_unknown = 9
state_code s_login_cont = 10

abbrev pub same_state : SessionState → SessionState → Bool
same_state s t = state_code s == state_code t

-- state_info: nothing, the reason for stopping, or the host of a redirection.
pub data Info : Type 0 where
  no_info : Info
  reason : ℕ → Info
  host : Str → Info

-- The session's properties, by the names of src/mw_session.h.
pub data Key : Type 0 where
  auth_user_id auth_password client_host client_ip client_ver_major : Key
  client_ver_minor client_type_id server_ver_major server_ver_minor : Key

abbrev pub key_code : Key → ℕ
key_code auth_user_id = 0
key_code auth_password = 1
key_code client_host = 2
key_code client_ip = 3
key_code client_ver_major = 4
key_code client_ver_minor = 5
key_code client_type_id = 6
key_code server_ver_major = 7
key_code server_ver_minor = 8

-- A gpointer that is a number or a string.
pub data Property : Type 0 where
  number : ℕ → Property
  string : List ℕ → Property

-- What happens outside of the session.
pub data Event : Type 0 where
  on_state_change : SessionState → Info → Event
  io_write : List ℕ → Event
  io_close on_set_privacy_info on_set_user_status : Event
  on_admin : Str → Event
  on_announce : LoginInfo → Bool → Str → Event
  to_channels : Message → Event

pub record Session : Type 0 where
  pub state : SessionState
  pub state_info : Info
  pub buffer : Recv
  pub login : LoginInfo
  pub status : UserStatus
  pub privacy : PrivacyInfo
  pub services : List Service
  pub attributes : List (Key × Property)
  pub log : List Event

-- The world: whether a write fails after what happened, the bytes of mwKeyRandom and of
-- mw_mp_set_rand, and the library of large
-- integers. `at_null` is the text that would be read at NULL, and `in_front` the memory in front of
-- the key that a server's offer gives, which no one knows.
pub record World : Type 1 where
  pub write_fails : List Event → List ℕ → Bool
  pub key_random : List Event → List ℕ
  pub dh_random : List Event → List ℕ
  pub mpi : Mpi
  pub at_null : List ℕ
  pub in_front : List ℕ

abbrev pub tell : Event → Session → Session
tell e s = record s { log = e ∷ s.log }

-- property_set, property_del and property_get
abbrev pub property_del : Key → List (Key × Property) → List (Key × Property)
property_del k [] = []
property_del k (p ∷ ps) =
    let rest = property_del k ps in if key_code k == key_code p.0 then rest else p ∷ rest

unfoldable pub property_set : Key → Property → Session → Session
property_set k v s = record s { attributes = (k, v) ∷ property_del k s.attributes }

abbrev pub property_get : Key → List (Key × Property) → Option Property
property_get k [] = none
property_get k (p ∷ ps) =
    let rest = property_get k ps in if key_code k == key_code p.0 then some p.1 else rest

-- GUINT(property_get(s, key)); of a string, whose address is not known, the model takes 0.
abbrev pub number_of : Option Property → ℕ
number_of none = 0
number_of (some (number n)) = n
number_of (some (string cs)) = 0

abbrev pub string_of : Option Property → Str
string_of none = none
string_of (some (number n)) = none
string_of (some (string cs)) = some cs

-- session_defaults and mwSession_new
abbrev pub session_defaults : List (Key × Property)
session_defaults =
    (client_type_id, number 0x1700)
    ∷ (client_ver_minor, number 0x001d)
    ∷ (client_ver_major, number 0x001e)
    ∷ []

abbrev pub session_new : Session
session_new = record {
  state = s_stopped;
  state_info = no_info;
  buffer = session_buf_free;
  login = login_info_zero;
  status = user_status_zero;
  privacy = privacy_info_zero;
  services = [];
  attributes = session_defaults;
  log = [];
}

-- The function `state` of the source.
unfoldable pub change_state : SessionState → Info → Session → Session
change_state t info s =
    if same_state s.state t
    then s
    else tell (on_state_change t info) (record s { state = t; state_info = info })

-- mwMessage_new of a type that has a message: its head.
abbrev pub new_head : Kind → MessageHead
new_head k = record message_head_zero { type_ = code k }

unfoldable pub set_user_status_recv : SetUserStatus → Session → Session
set_user_status_recv msg s =
    tell on_set_user_status
      (record s { status = user_status_clone (user_status_clear s.status) msg.status })

-- The end of mwSession_send, after a write that did not fail.
abbrev pub sent_status : Message → Session → Session
sent_status (set_user_status msg) s = set_user_status_recv msg s
sent_status _ s = s

-- mwSession_send of a message; the flag is that the write failed.
unfoldable pub session_send : World → Message → Session → Session × Bool
session_send world msg s =
    let s' = tell (io_write (frame_bytes msg)) s in
    if world.write_fails s.log (frame_bytes msg) then (s', true) else (sent_status msg s', false)

-- A message that is sent whether or not it can be written.
abbrev pub stop_message : ℕ → Message
stop_message reason_ =
    channel_destroy
      (record (channel_destroy_zero (new_head k_channel_destroy)) { reason = reason_ })

-- Messages that are sent one after the other, whether or not they can be written.
abbrev pub send_all : World → List Message → Session → Session
send_all world [] s = s
send_all world (m ∷ ms) s = send_all world ms (session_send world m s).0

-- A call on each of the services, the first one first: what they write is sent, and they are left
-- as the call leaves them.
abbrev pub write_each :
    World → (Service → Service × List Message) → List Service → Session → Session
write_each world call [] s = s
write_each world call (srvc ∷ srvcs) s =
    write_each world call srvcs (send_all world (call srvc).1 s)

abbrev pub call_services : World → (Service → Service × List Message) → Session → Session
call_services world call s = record (write_each world call s.services s) {
  services = map (λ v. (call v).0) s.services;
}

-- mwService_stop of every service
abbrev pub stop_services : World → Session → Session
stop_services world s = call_services world service_stop s

unfoldable pub session_stop : World → ℕ → Session → Session
session_stop world reason_ s =
    if same_state s.state s_stopped || same_state s.state s_stopping
    then s
    else let stopping = stop_services world (change_state s_stopping (reason reason_) s) in
      let sent = (session_send world (stop_message reason_) stopping).0 in
      change_state s_stopped (reason reason_)
        (tell io_close (record sent { buffer = session_buf_free }))

abbrev pub hello : Session → Handshake
hello s =
    let number_at : Key → ℕ = λ k. number_of (property_get k s.attributes) in
    let major = number_at client_ver_major % 2 ^ 16 in
    let minor = number_at client_ver_minor % 2 ^ 16 in
    let msg = record (handshake_zero (new_head k_handshake)) {
      major = major;
      minor = minor;
      login_type = number_at client_type_id % 2 ^ 16;
      loclcalc_addr = number_at client_ip % 2 ^ 32;
    } in
    if sends_host major minor
    then record msg {
      unknown_a = 0x0100;
      local_host = string_of (property_get client_host s.attributes);
    }
    else msg

unfoldable pub session_start : World → Session → Session
session_start world s =
    if same_state s.state s_stopped
    then (let starting = change_state s_starting no_info s in
        let out = session_send world (handshake (hello starting)) starting in
        if out.1
        then session_stop world 0x80000221 out.0
        else change_state s_handshake no_info out.0)
    else s

-- mwSession_forceLogin; what it returns is not kept.
unfoldable pub force_login : World → Session → Session
force_login world s =
    if same_state s.state s_login_redir
    then (session_send world (login_continue (record { head = new_head k_login_continue }))
        (change_state s_login_cont no_info s)).0
    else s
