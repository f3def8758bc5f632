-- ===== src/Session/State/Calls/Keeps.antt =====
-- These calls keep to the diagram of the states too.
use meanwhile.Base.{ℕ, Bool, Option, none, some, List, ◌∷◌, ◌==◌, Bool-cases, inl, inr}
use meanwhile.Basic.{Str}
use meanwhile.Common.Rules.{strdup}
use meanwhile.Common.PrivacyInfo.{PrivacyInfo, privacy_info_zero, privacy_info_clone}
use meanwhile.Common.UserStatus.{UserStatus, user_status_zero, user_status_clone}
use meanwhile.Message.Announce.{announce_zero}
use meanwhile.Message.Dispatch.{
  k_announce, k_set_privacy_list, k_set_user_status, k_sense_service, announce, set_privacy_list,
  set_user_status, sense_service,
}
use meanwhile.Service.{Service}
use meanwhile.Session.State.{Session, World, s_started, same_state, new_head}
use meanwhile.Session.State.Steps.{IsSound, session_send-keeps}
use meanwhile.Session.State.Calls.{
  send_keepalive, send_announce, set_privacy_info, set_status, ask_service, get_service, add_new,
  add_service, remove_service,
}

module _ (world : World) where
  pub send_keepalive-IsSound : (s : Session) → IsSound s → IsSound (send_keepalive world s).0
  unfolding send_keepalive
  send_keepalive-IsSound s h = record { told = h.told; kept = h.kept; held = h.held }

  pub send_announce-IsSound :
      (may_reply : Bool) (text : Str) (recipients : List Str) (s : Session)
      → IsSound s
      → IsSound (send_announce world may_reply text recipients s).0
  unfolding send_announce
  send_announce-IsSound may_reply text recipients s h =
      let msg = announce (record (announce_zero (new_head k_announce)) {
        recipients = recipients;
        may_reply = may_reply;
        text = strdup text;
      }) in
      elim (Bool-cases (same_state s.state s_started)) [
        | inl e ↦ rw e (session_send-keeps world msg s h).0
        | inr e ↦ rw e h
      ]

  pub set_privacy_info-IsSound :
      (p : PrivacyInfo) (s : Session) → IsSound s → IsSound (set_privacy_info world p s).0
  unfolding set_privacy_info
  set_privacy_info-IsSound p s h =
      (session_send-keeps world
        (set_privacy_list (record {
          head = new_head k_set_privacy_list;
          privacy = privacy_info_clone privacy_info_zero p;
        }))
        s h).0

  pub set_status-IsSound :
      (stat : UserStatus) (s : Session) → IsSound s → IsSound (set_status world stat s).0
  unfolding set_status
  set_status-IsSound stat s h =
      (session_send-keeps world
        (set_user_status (record {
          head = new_head k_set_user_status;
          status = user_status_clone user_status_zero stat;
        }))
        s h).0

  pub ask_service-IsSound :
      (type_ : ℕ) (s : Session) → IsSound s → IsSound (ask_service world type_ s)
  unfolding ask_service
  ask_service-IsSound type_ s h = elim (Bool-cases (type_ == 0)) [
    | inl e ↦ rw e h
    | inr e ↦ elim (Bool-cases (same_state s.state s_started)) [
      | inl f ↦
          rw (e, f)
            (session_send-keeps world
              (sense_service (record { head = new_head k_sense_service; service = type_ })) s h).0
      | inr f ↦ rw (e, f) h
    ]
  ]

  add_new-IsSound :
      (srvc : Service) (s : Session) (old : Option Service)
      → IsSound s
      → IsSound (add_new world srvc s old).0
  add_new-IsSound srvc s (some old) h = h
  add_new-IsSound srvc s none h =
      let added = record s { services = srvc ∷ s.services } in
      let i : IsSound added = record { told = h.told; kept = h.kept; held = h.held } in
      elim (Bool-cases (same_state s.state s_started)) [
        | inl e ↦ rw e (ask_service-IsSound srvc.type_ added i)
        | inr e ↦ rw e i
      ]

  pub add_service-IsSound :
      (srvc : Service) (s : Session) → IsSound s → IsSound (add_service world srvc s).0
  unfolding add_service
  add_service-IsSound srvc s h = add_new-IsSound srvc s (get_service srvc.type_ s.services) h

pub remove_service-IsSound :
    (type_ : ℕ) (s : Session) → IsSound s → IsSound (remove_service type_ s).0
unfolding remove_service
remove_service-IsSound type_ s h = record { told = h.told; kept = h.kept; held = h.held }
