-- ===== src/Session/State/Calls.antt =====
-- What else the users of a session ask of it in src/session.c: keep-alive bytes, announcements, their
-- privacy and status, and the table of services, which has one service of each type.
pub mod Keeps
use meanwhile.Base.{
  ℕ, Bool, true, false, ◌||◌, Option, none, some, List, [], ◌∷◌, ◌==◌, if◌then◌else◌,
}
use meanwhile.Basic.{Str}
use meanwhile.Common.Rules.{strdup}
use meanwhile.Common.PrivacyInfo.{PrivacyInfo, privacy_info_zero, privacy_info_clone}
use meanwhile.Common.UserStatus.{UserStatus, user_status_zero, user_status_clone}
use meanwhile.Message.Announce.{announce_zero}
use meanwhile.Message.Dispatch.{
  k_announce, k_set_privacy_list, k_set_user_status, k_sense_service, announce, set_privacy_list,
  set_user_status, sense_service,
}
use meanwhile.Service.{Service}
use meanwhile.Session.State.{
  Session, World, s_started, same_state, io_write, tell, new_head, session_send,
}

-- The flag of each is that the write failed, or that nothing was written in the wrong state.
unfoldable pub send_keepalive : World → Session → Session × Bool
send_keepalive world s = (tell (io_write (0x80 ∷ [])) s, world.write_fails s.log (0x80 ∷ []))

unfoldable pub send_announce : World → Bool → Str → List Str → Session → Session × Bool
send_announce world may_reply text recipients s =
    if same_state s.state s_started
    then session_send world
        (announce (record (announce_zero (new_head k_announce)) {
          recipients = recipients;
          may_reply = may_reply;
          text = strdup text;
        }))
        s
    else (s, true)

unfoldable pub set_privacy_info : World → PrivacyInfo → Session → Session × Bool
set_privacy_info world privacy s =
    session_send world
      (set_privacy_list (record {
        head = new_head k_set_privacy_list;
        privacy = privacy_info_clone privacy_info_zero privacy;
      }))
      s

unfoldable pub set_status : World → UserStatus → Session → Session × Bool
set_status world stat s =
    session_send world
      (set_user_status (record {
        head = new_head k_set_user_status;
        status = user_status_clone user_status_zero stat;
      }))
      s

-- mwSession_senseService, which returns nothing.
unfoldable pub ask_service : World → ℕ → Session → Session
ask_service world srvc s =
    if srvc == 0
    then s
    else if same_state s.state s_started
    then (session_send world
        (sense_service (record { head = new_head k_sense_service; service = srvc })) s).0
    else s

-- map_guint_lookup in the table of services
abbrev pub get_service : ℕ → List Service → Option Service
get_service type_ [] = none
get_service type_ (srvc ∷ srvcs) =
    let rest = get_service type_ srvcs in if srvc.type_ == type_ then some srvc else rest

abbrev pub drop_service : ℕ → List Service → List Service
drop_service type_ [] = []
drop_service type_ (srvc ∷ srvcs) =
    let rest = drop_service type_ srvcs in if srvc.type_ == type_ then rest else srvc ∷ rest

abbrev pub add_new : World → Service → Session → Option Service → Session × Bool
add_new world srvc s (some old) = (s, false)
add_new world srvc s none =
    let added = record s { services = srvc ∷ s.services } in
    (if same_state added.state s_started then ask_service world srvc.type_ added else added, true)

-- The flag is that the service was added.
unfoldable pub add_service : World → Service → Session → Session × Bool
add_service world srvc s = add_new world srvc s (get_service srvc.type_ s.services)

unfoldable pub remove_service : ℕ → Session → Session × Option Service
remove_service type_ s =
    (record s { services = drop_service type_ s.services }, get_service type_ s.services)
