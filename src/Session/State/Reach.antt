-- ===== src/Session/State/Reach.antt =====
-- The sessions that can be reached, by the calls of their users and by what they receive.
use meanwhile.Base.{Bool, List, ℕ, ◌≡◌, refl, true, List}
use meanwhile.Message.Dispatch.{Message, Uninit}
use meanwhile.Service.{Service}
use meanwhile.Session.State.{
  Session, World, Key, Property, session_new, session_send, session_stop, session_start,
  force_login,
}
use meanwhile.Session.State.Handle.{session_receive}
use meanwhile.Session.State.Steps.{
  last_state, keeps_to_diagram, Held, nothing-Held, IsSound, session_send-keeps,
}
use meanwhile.Session.State.Calls.{
  send_keepalive, send_announce, set_privacy_info, set_status, ask_service, add_service,
  remove_service,
}
use meanwhile.Session.State.Calls.Keeps.{
  send_keepalive-IsSound, send_announce-IsSound, set_privacy_info-IsSound, set_status-IsSound,
  ask_service-IsSound, add_service-IsSound, remove_service-IsSound,
}
use meanwhile.Basic.{Str}
use meanwhile.Common.PrivacyInfo.{PrivacyInfo}
use meanwhile.Common.UserStatus.{UserStatus}
use meanwhile.Session.State.Keeps.{session_start-IsSound, session_stop-IsSound, force_login-IsSound}
use meanwhile.Session.State.Input.{session_receive-IsSound}

-- One call of a user, or one piece of input. `services` is any change to the list of services, as
-- when a service changes its state, and `property` any change to the session's properties.
pub data Step (world : World) : Session → Session → Type 0 where
  start : {s : Session} → Step world s (session_start world s)
  stop : {s : Session} (reason_ : ℕ) → Step world s (session_stop world reason_ s)
  force : {s : Session} → Step world s (force_login world s)
  send : {s : Session} (m : Message) → Step world s (session_send world m s).0
  services : {s : Session} (srvcs : List Service) → Step world s (record s { services = srvcs })
  property :
      {s : Session} (ps : List (Key × Property)) → Step world s (record s { attributes = ps })
  keepalive : {s : Session} → Step world s (send_keepalive world s).0
  announced :
      {s : Session} (may_reply : Bool) (text : Str) (recipients : List Str)
      → Step world s (send_announce world may_reply text recipients s).0
  privacy : {s : Session} (p : PrivacyInfo) → Step world s (set_privacy_info world p s).0
  status : {s : Session} (stat : UserStatus) → Step world s (set_status world stat s).0
  ask : {s : Session} (type_ : ℕ) → Step world s (ask_service world type_ s)
  add : {s : Session} (srvc : Service) → Step world s (add_service world srvc s).0
  remove : {s : Session} (type_ : ℕ) → Step world s (remove_service type_ s).0
  receive :
      {s : Session} (u : Uninit) (bytes : List ℕ) → Step world s (session_receive world u bytes s)

pub data Reached (world : World) : Session → Type 0 where
  fresh : Reached world session_new
  next : {s t : Session} → Reached world s → Step world s t → Reached world t

module _ (world : World) where
  Step-IsSound : {s t : Session} → IsSound s → Step world s t → IsSound t
  Step-IsSound {s} h start = session_start-IsSound world s h
  Step-IsSound {s} h (stop reason_) = session_stop-IsSound world reason_ s h
  Step-IsSound {s} h force = force_login-IsSound world s h
  Step-IsSound {s} h (send m) = (session_send-keeps world m s h).0
  Step-IsSound h (services srvcs) = record { told = h.told; kept = h.kept; held = h.held }
  Step-IsSound h (property ps) = record { told = h.told; kept = h.kept; held = h.held }
  Step-IsSound {s} h keepalive = send_keepalive-IsSound world s h
  Step-IsSound {s} h (announced may_reply text recipients) =
      send_announce-IsSound world may_reply text recipients s h
  Step-IsSound {s} h (privacy p) = set_privacy_info-IsSound world p s h
  Step-IsSound {s} h (status stat) = set_status-IsSound world stat s h
  Step-IsSound {s} h (ask type_) = ask_service-IsSound world type_ s h
  Step-IsSound {s} h (add srvc) = add_service-IsSound world srvc s h
  Step-IsSound {s} h (remove type_) = remove_service-IsSound type_ s h
  Step-IsSound {s} h (receive u bytes) = session_receive-IsSound world u bytes s h

Reached-IsSound : (world : World) (s : Session) → Reached world s → IsSound s
Reached-IsSound world _ fresh = record { told = refl; kept = refl; held = nothing-Held }
Reached-IsSound world _ (next {s} r step) = Step-IsSound world (Reached-IsSound world s r) step

-- In every session that can be reached from a new one by calls of its users, changes of its
-- services and properties, and any pieces of bytes received: the state is the one that its
-- handler was last told of; each change of state that was told of is one of the diagram
-- (`allowed`), from the one told of before it; and the input buffer holds a part of a message
-- that is not whole.
pub state_diagram :
    (world : World) (s : Session)
    → Reached world s
    → (last_state s.log ≡ s.state) × (keeps_to_diagram s.log ≡ true) × Held s.buffer
state_diagram world s r = let h = Reached-IsSound world s r in (h.told, h.kept, h.held)
