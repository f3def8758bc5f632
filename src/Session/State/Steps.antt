-- ===== src/Session/State/Steps.antt =====
-- The diagram of a session's states, and that every session that can be reached keeps to it.
use meanwhile.Base.{
  ℕ, ◌≡◌, refl, sym, ap, ◌∙◌, arith, Bool, true, false, not, ◌||◌, ◌&&◌, List, [], ◌∷◌, ◌==◌,
  if◌then◌else◌, Bool-cases, inl, inr,
}
use meanwhile.Message.Dispatch.{Message, set_user_status}
use meanwhile.Session.Send.{frame_bytes}
use meanwhile.Session.Recv.{Recv, session_buf_free}
use meanwhile.Session.Recv.Laws.{IsPartial}
use meanwhile.Session.Recv.Buffered.{buffered}
use meanwhile.Session.State.{
  Session, World, SessionState, Info, s_starting, s_handshake, s_handshake_ack, s_login,
  s_login_redir, s_login_ack, s_started, s_stopping, s_stopped, s_unknown, s_login_cont, state_code,
  same_state, Event, on_state_change, io_write, io_close, on_set_privacy_info, on_set_user_status,
  on_admin, on_announce, to_channels, tell, change_state, set_user_status_recv, session_send,
  sent_status,
}

-- The diagram: the state that each state may be left for. A redirection is taken in any state.
abbrev pub allowed : SessionState → SessionState → Bool
allowed s s_starting = same_state s s_stopped
allowed s s_handshake = same_state s s_starting
allowed s s_handshake_ack = same_state s s_handshake || same_state s s_login_cont
allowed s s_login = same_state s s_handshake_ack
allowed s s_login_redir = true
allowed s s_login_ack = same_state s s_login
allowed s s_started = same_state s s_login_ack
allowed s s_stopping = not (same_state s s_stopped || same_state s s_stopping)
allowed s s_stopped = same_state s s_stopping
allowed s s_unknown = false
allowed s s_login_cont = same_state s s_login_redir

-- The state that was told of last.
abbrev pub last_state : List Event → SessionState
last_state [] = s_stopped
last_state (on_state_change t i ∷ es) = t
last_state (io_write bytes ∷ es) = last_state es
last_state (io_close ∷ es) = last_state es
last_state (on_set_privacy_info ∷ es) = last_state es
last_state (on_set_user_status ∷ es) = last_state es
last_state (on_admin text ∷ es) = last_state es
last_state (on_announce l r text ∷ es) = last_state es
last_state (to_channels m ∷ es) = last_state es

-- Every change of state that was told of is one of the diagram, from the one told of before it.
abbrev pub keeps_to_diagram : List Event → Bool
keeps_to_diagram [] = true
keeps_to_diagram (on_state_change t i ∷ es) = allowed (last_state es) t && keeps_to_diagram es
keeps_to_diagram (io_write bytes ∷ es) = keeps_to_diagram es
keeps_to_diagram (io_close ∷ es) = keeps_to_diagram es
keeps_to_diagram (on_set_privacy_info ∷ es) = keeps_to_diagram es
keeps_to_diagram (on_set_user_status ∷ es) = keeps_to_diagram es
keeps_to_diagram (on_admin text ∷ es) = keeps_to_diagram es
keeps_to_diagram (on_announce l r text ∷ es) = keeps_to_diagram es
keeps_to_diagram (to_channels m ∷ es) = keeps_to_diagram es

-- The input buffer holds a part of a message.
pub record Held (r : Recv) : Type 0 where
  pub part : List ℕ
  pub here : r ≡ buffered part
  pub partly : IsPartial part

pub record IsSound (s : Session) : Type 0 where
  pub told : last_state s.log ≡ s.state
  pub kept : keeps_to_diagram s.log ≡ true
  pub held : Held s.buffer

pub nothing-Held : Held session_buf_free
nothing-Held = record { part = []; here = refl; partly = omega arith }

of_code : ℕ → SessionState
of_code n =
    if n == 0
    then s_starting
    else if n == 1
    then s_handshake
    else if n == 2
    then s_handshake_ack
    else if n == 3
    then s_login
    else if n == 4
    then s_login_redir
    else if n == 5
    then s_login_ack
    else if n == 6
    then s_started
    else if n == 7
    then s_stopping
    else if n == 8
    then s_stopped
    else if n == 9
    then s_unknown
    else s_login_cont

of_code-state_code : (s : SessionState) → of_code (state_code s) ≡ s
unfolding of_code
of_code-state_code s_starting = refl
of_code-state_code s_handshake = refl
of_code-state_code s_handshake_ack = refl
of_code-state_code s_login = refl
of_code-state_code s_login_redir = refl
of_code-state_code s_login_ack = refl
of_code-state_code s_started = refl
of_code-state_code s_stopping = refl
of_code-state_code s_stopped = refl
of_code-state_code s_unknown = refl
of_code-state_code s_login_cont = refl

pub same_state-equal : (s t : SessionState) → same_state s t ≡ true → s ≡ t
same_state-equal s t h =
    sym (of_code-state_code s) ∙ ap of_code (ground arith) ∙ of_code-state_code t

pub change_state-state :
    (t : SessionState) (i : Info) (s : Session) → (change_state t i s).state ≡ t
unfolding change_state
change_state-state t i s = elim (Bool-cases (same_state s.state t)) [
  | inl e ↦ rw e (same_state-equal s.state t e)
  | inr e ↦ rw e refl
]

pub change_state-IsSound :
    (t : SessionState) (i : Info) (s : Session)
    → IsSound s
    → allowed s.state t ≡ true
    → IsSound (change_state t i s)
unfolding change_state
change_state-IsSound t i s h a = elim (Bool-cases (same_state s.state t)) [
  | inl e ↦ rw e h
  | inr e ↦ rw e (record { told = refl; kept = rw (h.told, a) h.kept; held = h.held })
]

-- A state that is known is left along the diagram.
pub change_state-from :
    (r t : SessionState) (i : Info) (s : Session)
    → s.state ≡ r
    → allowed r t ≡ true
    → IsSound s
    → IsSound (change_state t i s)
change_state-from r t i s e a h = change_state-IsSound t i s h (rw e a)

sent_status-keeps :
    (m : Message) (s : Session)
    → IsSound s
    → IsSound (sent_status m s) × ((sent_status m s).state ≡ s.state)
unfolding set_user_status_recv
sent_status-keeps (set_user_status m) s h =
    (record { told = h.told; kept = h.kept; held = h.held }, refl)
sent_status-keeps _ s h = (h, refl)

pub session_send-keeps :
    (world : World) (m : Message) (s : Session)
    → IsSound s
    → IsSound (session_send world m s).0 × ((session_send world m s).0.state ≡ s.state)
unfolding session_send
session_send-keeps world m s h =
    let written = tell (io_write (frame_bytes m)) s in
    let w : IsSound written = record { told = h.told; kept = h.kept; held = h.held } in
    elim (Bool-cases (world.write_fails s.log (frame_bytes m))) [
      | inl e ↦ rw e (w, refl)
      | inr e ↦ rw e (sent_status-keeps m written w)
    ]
