-- ===== src/Session/State/Keeps.antt =====
-- Every operation of a session keeps to the diagram of its states.
use meanwhile.Base.{◌∙◌, ℕ, List, [], ◌∷◌, ◌≡◌, refl, ◌∙◌, ◌||◌, ◌==◌, Bool-cases, inl, inr}
use meanwhile.Message.Handshake.{HandshakeAck}
use meanwhile.Message.Login.{LoginAck}
use meanwhile.Message.Channel.{ChannelDestroy}
use meanwhile.Message.Dispatch.{
  Message, handshake_ack, login_ack, login_redirect, set_user_status, channel_create,
  channel_destroy, channel_send, channel_accept, set_privacy_list, sense_service, admin, announce,
  handshake, login, login_continue, k_login_continue,
}
use meanwhile.Service.{Service, service_start, service_stop}
use meanwhile.Common.LoginInfo.{login_info_clone, login_info_clear}
use meanwhile.Session.Recv.{session_buf_free}
use meanwhile.Session.State.{
  Session, World, s_starting, s_handshake, s_handshake_ack, s_login, s_login_redir, s_login_ack,
  s_started, s_stopping, s_stopped, s_login_cont, no_info, reason, host, same_state, tell,
  stop_services, send_all, write_each, call_services, stop_message, property_set, change_state,
  set_user_status_recv, session_send, session_stop, session_start, force_login, hello, new_head,
  number, server_ver_major, server_ver_minor, io_close,
}
use meanwhile.Session.State.Handle.{
  login_message, send_login, handshake_ack_recv, login_ack_recv, channel_destroy_recv,
  set_privacy_list_recv, sense_service_recv, admin_recv, announce_recv, login_redirect_recv,
  message_recv, start_type,
}
use meanwhile.Session.State.Steps.{
  nothing-Held, IsSound, same_state-equal, change_state-state, change_state-IsSound,
  change_state-from, session_send-keeps,
}

module _ (world : World) where
  send_all-keeps :
      (ms : List Message) (s : Session)
      → IsSound s
      → IsSound (send_all world ms s) × ((send_all world ms s).state ≡ s.state)
  send_all-keeps [] s h = (h, refl)
  send_all-keeps (m ∷ ms) s h =
      let (k, same) = session_send-keeps world m s h in
      let (rest, same') = send_all-keeps ms (session_send world m s).0 k in (rest, same' ∙ same)

  write_each-keeps :
      (call : Service → Service × List Message) (srvcs : List Service) (s : Session)
      → IsSound s
      → IsSound (write_each world call srvcs s) × ((write_each world call srvcs s).state ≡ s.state)
  write_each-keeps call [] s h = (h, refl)
  write_each-keeps call (srvc ∷ srvcs) s h =
      let (k, same) = send_all-keeps (call srvc).1 s h in
      let (rest, same') = write_each-keeps call srvcs (send_all world (call srvc).1 s) k in
      (rest, same' ∙ same)

  call_services-keeps :
      (call : Service → Service × List Message) (s : Session)
      → IsSound s
      → IsSound (call_services world call s) × ((call_services world call s).state ≡ s.state)
  call_services-keeps call s h =
      let (k, same) = write_each-keeps call s.services s h in
      (record { told = k.told; kept = k.kept; held = k.held }, same)

  pub session_stop-IsSound :
      (reason_ : ℕ) (s : Session) → IsSound s → IsSound (session_stop world reason_ s)
  unfolding session_stop
  session_stop-IsSound reason_ s h =
      elim (Bool-cases (same_state s.state s_stopped || same_state s.state s_stopping)) [
        | inl e ↦ rw e h
        | inr e ↦ rw e (
            let first = change_state s_stopping (reason reason_) s in
            let i : IsSound first =
              change_state-IsSound s_stopping (reason reason_) s h (rw e refl) in
            let (j, unchanged) = call_services-keeps service_stop first i in
            let (k, same) =
              session_send-keeps world (stop_message reason_) (stop_services world first) j in
            let sent = (session_send world (stop_message reason_) (stop_services world first)).0 in
            change_state-from s_stopping s_stopped (reason reason_)
              (tell io_close (record sent { buffer = session_buf_free }))
              (same ∙ unchanged ∙ change_state-state s_stopping (reason reason_) s) refl
              (record { told = k.told; kept = k.kept; held = nothing-Held }))
      ]

  pub session_start-IsSound : (s : Session) → IsSound s → IsSound (session_start world s)
  unfolding session_start
  session_start-IsSound s h = elim (Bool-cases (same_state s.state s_stopped)) [
    | inl e ↦
        let starting = change_state s_starting no_info s in
        let (k, same) =
          session_send-keeps world (handshake (hello starting)) starting
            (change_state-IsSound s_starting no_info s h e) in
        let out = session_send world (handshake (hello starting)) starting in
        rw e (elim (Bool-cases out.1) [
          | inl f ↦ rw f (session_stop-IsSound 0x80000221 out.0 k)
          | inr f ↦ rw f (
              change_state-from s_starting s_handshake no_info out.0
                (same ∙ change_state-state s_starting no_info s) refl k)
        ])
    | inr e ↦ rw e h
  ]

  pub force_login-IsSound : (s : Session) → IsSound s → IsSound (force_login world s)
  unfolding force_login
  force_login-IsSound s h = elim (Bool-cases (same_state s.state s_login_redir)) [
    | inl e ↦
        rw e
          (session_send-keeps world (login_continue (record { head = new_head k_login_continue }))
            (change_state s_login_cont no_info s)
            (change_state-IsSound s_login_cont no_info s h e)).0
    | inr e ↦ rw e h
  ]

  send_login-IsSound :
      (msg : HandshakeAck) (s : Session)
      → s.state ≡ s_handshake_ack
      → IsSound s
      → IsSound (send_login world msg s)
  unfolding send_login property_set
  send_login-IsSound msg s e h =
      let known =
        property_set server_ver_minor (number msg.minor)
          (property_set server_ver_major (number msg.major) s) in
      let (k, same) =
        session_send-keeps world (login (login_message world msg known)) known
          (record { told = h.told; kept = h.kept; held = h.held }) in
      let out = session_send world (login (login_message world msg known)) known in
      elim (Bool-cases out.1) [
        | inl f ↦ rw f k
        | inr f ↦ rw f (change_state-from s_handshake_ack s_login no_info out.0 (same ∙ e) refl k)
      ]

  handshake_ack_recv-IsSound :
      (msg : HandshakeAck) (s : Session) → IsSound s → IsSound (handshake_ack_recv world msg s)
  unfolding handshake_ack_recv
  handshake_ack_recv-IsSound msg s h =
      let acked = change_state s_handshake_ack no_info s in
      let now = change_state-state s_handshake_ack no_info s in
      elim (Bool-cases (same_state s.state s_login_cont)) [
        | inl e ↦ rw e (
            change_state-from s_handshake_ack s_login no_info acked now refl (
              change_state-from s_login_cont s_handshake_ack no_info s
                (same_state-equal s.state s_login_cont e) refl h))
        | inr e ↦ elim (Bool-cases (same_state s.state s_handshake)) [
          | inl f ↦
              rw (e, f)
                (send_login-IsSound msg acked now (
                  change_state-from s_handshake s_handshake_ack no_info s
                    (same_state-equal s.state s_handshake f) refl h))
          | inr f ↦ rw (e, f) h
        ]
      ]

  login_ack_recv-IsSound :
      (msg : LoginAck) (s : Session) → IsSound s → IsSound (login_ack_recv world msg s)
  unfolding login_ack_recv
  login_ack_recv-IsSound msg s h = elim (Bool-cases (same_state s.state s_login)) [
    | inl e ↦
        let known = record s { login = login_info_clone (login_info_clear s.login) msg.login } in
        let acked = change_state s_login_ack no_info known in
        let i : IsSound acked =
          change_state-IsSound s_login_ack no_info known
            (record { told = h.told; kept = h.kept; held = h.held }) e in
        let (j, unchanged) = call_services-keeps service_start acked i in
        rw e (
          change_state-from s_login_ack s_started no_info (call_services world service_start acked)
            (unchanged ∙ change_state-state s_login_ack no_info known) refl j)
    | inr e ↦ rw e h
  ]

  channel_destroy_recv-IsSound :
      (msg : ChannelDestroy) (s : Session) → IsSound s → IsSound (channel_destroy_recv world msg s)
  unfolding channel_destroy_recv
  channel_destroy_recv-IsSound msg s h = elim (Bool-cases (msg.head.channel == 0)) [
    | inl e ↦ rw e (session_stop-IsSound msg.reason s h)
    | inr e ↦ rw e (record { told = h.told; kept = h.kept; held = h.held })
  ]

  pub message_recv-IsSound :
      (m : Message) (s : Session) → IsSound s → IsSound (message_recv world m s)
  unfolding message_recv set_privacy_list_recv set_user_status_recv sense_service_recv admin_recv
      announce_recv login_redirect_recv
  message_recv-IsSound (handshake_ack m) s h = handshake_ack_recv-IsSound m s h
  message_recv-IsSound (login_redirect m) s h =
      change_state-IsSound s_login_redir (host m.host) s h refl
  message_recv-IsSound (login_ack m) s h = login_ack_recv-IsSound m s h
  message_recv-IsSound (channel_destroy m) s h = channel_destroy_recv-IsSound m s h
  message_recv-IsSound (channel_create m) s h = record {
    told = h.told;
    kept = h.kept;
    held = h.held;
  }
  message_recv-IsSound (channel_send m) s h = record { told = h.told; kept = h.kept; held = h.held }
  message_recv-IsSound (channel_accept m) s h = record {
    told = h.told;
    kept = h.kept;
    held = h.held;
  }
  message_recv-IsSound (set_privacy_list m) s h = record {
    told = h.told;
    kept = h.kept;
    held = h.held;
  }
  message_recv-IsSound (set_user_status m) s h = record {
    told = h.told;
    kept = h.kept;
    held = h.held;
  }
  message_recv-IsSound (sense_service m) s h =
      let started = start_type m.service s.services in
      let k = (send_all-keeps started.1 s h).0 in
      record { told = k.told; kept = k.kept; held = k.held }
  message_recv-IsSound (admin m) s h = record { told = h.told; kept = h.kept; held = h.held }
  message_recv-IsSound (announce m) s h = record { told = h.told; kept = h.kept; held = h.held }
  message_recv-IsSound _ s h = h
