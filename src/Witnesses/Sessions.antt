-- ===== src/Witnesses/Sessions.antt =====
-- A session that is started and stopped, and one that logs in.
use meanwhile.Base.{◌≡◌, refl, true, false, none, some, [], ◌∷◌, map}
use meanwhile.Common.LoginInfo.{login_info_clone, login_info_clear}
use meanwhile.Common.PrivacyInfo.{privacy_info_zero}
use meanwhile.Common.UserStatus.{user_status_zero}
use meanwhile.Message.Head.{message_head_zero}
use meanwhile.Message.Handshake.{HandshakeAck, handshake_ack_zero}
use meanwhile.Message.Login.{LoginAck}
use meanwhile.Message.Dispatch.{handshake_ack, login_ack}
use meanwhile.Service.{Service, srv_started, srv_starting, srv_stopped, service_start}
use meanwhile.Session.State.{
  Session, World, string, auth_password, stop_message, session_new, session_start, session_stop,
  s_handshake, s_login, s_started,
}
use meanwhile.Session.State.Handle.{message_recv}
use meanwhile.Session.State.Steps.{last_state, keeps_to_diagram, Held}
use meanwhile.Session.State.Reach.{fresh, next, start, stop, state_diagram}
use meanwhile.Session.State.Promises.{login_completes}
use meanwhile.Witnesses.Numbers.{numbers}
use meanwhile.Witnesses.Whole.{alice}

abbrev relay : Service
relay = record {
  type_ = 0x1000;
  state = srv_stopped;
  start = some (λ s. (srv_starting, stop_message 5 ∷ []));
  stop = some (λ s. (srv_stopped, []));
}

abbrev notes : Service
notes = record { type_ = 0x1001; state = srv_started; start = none; stop = none }

abbrev world : World
world = record {
  write_fails = λ es bytes. false;
  key_random = λ es. 1 ∷ 2 ∷ 3 ∷ 4 ∷ 5 ∷ [];
  dh_random = λ es. 1 ∷ 7 ∷ [];
  mpi = numbers;
  at_null = [];
  in_front = [];
}

state_diagram_example :
    let s = session_stop world 0 (session_start world session_new) in
    (last_state s.log ≡ s.state) × (keeps_to_diagram s.log ≡ true) × Held s.buffer
state_diagram_example =
    state_diagram world (session_stop world 0 (session_start world session_new))
      (next (next fresh start) (stop 0))

-- A stopped session with a password and two services, one of which writes when it starts.
abbrev known : Session
known = record session_new {
  services = relay ∷ notes ∷ [];
  attributes = (auth_password, string (112 ∷ 119 ∷ [])) ∷ session_new.attributes;
}

abbrev hello_back : HandshakeAck
hello_back = handshake_ack_zero message_head_zero

abbrev welcome : LoginAck
welcome = record {
  head = message_head_zero;
  login = alice;
  privacy = privacy_info_zero;
  status = user_status_zero;
}

login_completes_example :
    let greeted = session_start world known in
    let asked = message_recv world (handshake_ack hello_back) greeted in
    let done = message_recv world (login_ack welcome) asked in
    (greeted.state ≡ s_handshake)
    × (asked.state ≡ s_login)
    × (done.state ≡ s_started)
    × (done.login ≡ login_info_clone (login_info_clear asked.login) alice)
    × (done.services ≡ map (λ v. (service_start v).0) asked.services)
login_completes_example =
    login_completes world known (112 ∷ 119 ∷ []) hello_back welcome (λ es bytes. refl) refl refl
