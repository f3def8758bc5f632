-- ===== src/Session/State/Promises.antt =====
-- The messages of a login lead to a session that has started.
use meanwhile.Base.{ℕ, ◌≡◌, refl, ◌∙◌, true, false, some, List, [], ◌∷◌, map, Bool-cases, inl, inr}
use meanwhile.Common.LoginInfo.{login_info_clone, login_info_clear}
use meanwhile.Message.Handshake.{HandshakeAck}
use meanwhile.Message.Login.{LoginAck}
use meanwhile.Message.Dispatch.{
  Message, handshake_ack, login_ack, handshake, login, set_user_status,
}
use meanwhile.Service.{Service, service_start}
use meanwhile.Session.Send.{frame_bytes}
use meanwhile.Session.State.{
  Session, World, SessionState, Info, Event, s_starting, s_handshake, s_handshake_ack, s_login,
  s_login_cont, s_login_ack, s_started, s_stopped, no_info, same_state, tell, change_state,
  session_send, sent_status, session_start, hello, io_write, on_state_change, property_set, number,
  server_ver_major, server_ver_minor, property_get, string, auth_password, send_all, write_each,
  call_services, set_user_status_recv,
}
use meanwhile.Session.State.Steps.{change_state-state}
use meanwhile.Session.State.Handle.{
  handshake_ack_recv, send_login, login_ack_recv, message_recv, login_message,
}

change_state-new :
    (t : SessionState) (i : Info) (s : Session)
    → same_state s.state t ≡ false
    → change_state t i s ≡ tell (on_state_change t i) (record s { state = t; state_info = i })
unfolding change_state
change_state-new t i s e = rw e refl

-- A message other than a user status changes nothing but the log.
session_send-told :
    (world : World) (m : Message) (s : Session)
    → ((t : Session) → sent_status m t ≡ t)
    → ((session_send world m s).0 ≡ tell (io_write (frame_bytes m)) s)
      × ((session_send world m s).1 ≡ world.write_fails s.log (frame_bytes m))
unfolding session_send
session_send-told world m s h = elim (Bool-cases (world.write_fails s.log (frame_bytes m))) [
  | inl e ↦ rw e (refl, refl)
  | inr e ↦ rw e (h (tell (io_write (frame_bytes m)) s), refl)
]

-- Each step of a login, for writes that do not fail.
module _ (world : World)
    (writes : (es : List Event) (bytes : List ℕ) → world.write_fails es bytes ≡ false) where
  started_handshake :
      (s : Session) → s.state ≡ s_stopped → (session_start world s).state ≡ s_handshake
  unfolding session_start
  started_handshake s e =
      let starting = change_state s_starting no_info s in
      let sent = (session_send-told world (handshake (hello starting)) starting (λ t. refl)).1 in
      let fine = sent ∙ writes starting.log (frame_bytes (handshake (hello starting))) in
      let stopped : same_state s.state s_stopped ≡ true = rw e refl in
      rw (stopped, fine)
        (change_state-state s_handshake no_info
          (session_send world (handshake (hello starting)) starting).0)

  handshake_ack_login :
      (m : HandshakeAck) (s : Session)
      → s.state ≡ s_handshake
      → (handshake_ack_recv world m s).state ≡ s_login
  unfolding handshake_ack_recv send_login
  handshake_ack_login m s e =
      let acked = change_state s_handshake_ack no_info s in
      let known =
        property_set server_ver_minor (number m.minor)
          (property_set server_ver_major (number m.major) acked) in
      let msg = login (login_message world m known) in
      let fine =
        (session_send-told world msg known (λ t. refl)).1 ∙ writes known.log (frame_bytes msg) in
      let not_continued : same_state s.state s_login_cont ≡ false = rw e refl in
      let waiting : same_state s.state s_handshake ≡ true = rw e refl in
      rw (not_continued, waiting, fine)
        (change_state-state s_login no_info (session_send world msg known).0)

-- Sending messages changes neither the state, nor the login, nor the services.
abbrev Kept : Session → Session → Type 0
Kept s t = (t.state ≡ s.state) × (t.login ≡ s.login) × (t.services ≡ s.services)

sent_status-Kept : (m : Message) (s : Session) → Kept s (sent_status m s)
unfolding set_user_status_recv
sent_status-Kept (set_user_status m) s = (refl, refl, refl)
sent_status-Kept _ s = (refl, refl, refl)

module _ (world : World) where
  session_send-Kept : (m : Message) (s : Session) → Kept s (session_send world m s).0
  unfolding session_send
  session_send-Kept m s = elim (Bool-cases (world.write_fails s.log (frame_bytes m))) [
    | inl e ↦ rw e (refl, refl, refl)
    | inr e ↦ rw e (sent_status-Kept m (tell (io_write (frame_bytes m)) s))
  ]

  send_all-Kept : (ms : List Message) (s : Session) → Kept s (send_all world ms s)
  send_all-Kept [] s = (refl, refl, refl)
  send_all-Kept (m ∷ ms) s =
      let (a, b, c) = session_send-Kept m s in
      let (a', b', c') = send_all-Kept ms (session_send world m s).0 in (a' ∙ a, b' ∙ b, c' ∙ c)

  write_each-Kept :
      (call : Service → Service × List Message) (srvcs : List Service) (s : Session)
      → Kept s (write_each world call srvcs s)
  write_each-Kept call [] s = (refl, refl, refl)
  write_each-Kept call (srvc ∷ srvcs) s =
      let (a, b, c) = send_all-Kept (call srvc).1 s in
      let (a', b', c') = write_each-Kept call srvcs (send_all world (call srvc).1 s) in
      (a' ∙ a, b' ∙ b, c' ∙ c)

  login_ack_started :
      (m : LoginAck) (s : Session)
      → s.state ≡ s_login
      → let done = login_ack_recv world m s in
        (done.state ≡ s_started)
        × (done.login ≡ login_info_clone (login_info_clear s.login) m.login)
        × (done.services ≡ map (λ v. (service_start v).0) s.services)
  unfolding login_ack_recv
  login_ack_started m s e =
      let known = record s { login = login_info_clone (login_info_clear s.login) m.login } in
      let acked =
        tell (on_state_change s_login_ack no_info)
          (record known { state = s_login_ack; state_info = no_info }) in
      let sent : same_state s.state s_login ≡ true = rw e refl in
      let first = change_state-new s_login_ack no_info known (rw e refl) in
      let (a, b, c) = write_each-Kept service_start s.services acked in
      let ready = call_services world service_start acked in
      let differs : same_state ready.state s_started ≡ false = rw a refl in
      rw (sent, first, change_state-new s_started no_info ready differs) (refl, b, refl)

-- A session that is stopped and has a password set, in a world where no write fails:
-- mwSession_start, then a HANDSHAKE_ACK message, then a LOGIN_ACK message take it to the states
-- of a handshake sent, a login sent, and started; it then has the clone of the login information
-- of the answer, and its services are those that were there, each as mwService_start leaves it.
pub login_completes :
    (world : World) (s : Session) (pass : List ℕ) (m : HandshakeAck) (l : LoginAck)
    → ((es : List Event) (bytes : List ℕ) → world.write_fails es bytes ≡ false)
    → s.state ≡ s_stopped
    → property_get auth_password s.attributes ≡ some (string pass)
    → let greeted = session_start world s in
      let asked = message_recv world (handshake_ack m) greeted in
      let done = message_recv world (login_ack l) asked in
      (greeted.state ≡ s_handshake)
      × (asked.state ≡ s_login)
      × (done.state ≡ s_started)
      × (done.login ≡ login_info_clone (login_info_clear asked.login) l.login)
      × (done.services ≡ map (λ v. (service_start v).0) asked.services)
unfolding message_recv
login_completes world s pass m l writes e _ =
    let greeted = session_start world s in
    let asked = handshake_ack_recv world m greeted in
    let one = started_handshake world writes s e in
    let two = handshake_ack_login world writes m greeted one in
    let (three, info, services) = login_ack_started world l asked two in
    (one, two, three, info, services)
