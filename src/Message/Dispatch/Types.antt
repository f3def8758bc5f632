-- ===== src/Message/Dispatch/Types.antt =====
-- The switch on the message type in mwMessage_new and mwMessage_get: which types are known.
use meanwhile.Base.{
  ℕ, ◌≡◌, ◌≢◌, refl, sym, ap, ◌∙◌, arith, Option, none, some, ◌⊎◌, inl, inr, if◌then◌else◌, ◌==◌,
  Bool-cases,
}
use meanwhile.Buffer.Get.Laws.{Reads, Reads-end, pure-Reads, unless_error-Reads}
use meanwhile.Message.Head.{MessageHead, message_head_zero, wire_message_head, IsMessageHead}
use meanwhile.Message.Head.Laws.{message_head_get-Reads}
use meanwhile.Message.Dispatch.{
  Kind, Message, kind, code, kind_of, head_of, blank, message_new, new_kind, Uninit, kind_get,
  message_get, k_handshake, k_handshake_ack, k_login, k_login_ack, k_login_redirect,
  k_login_continue, k_channel_create, k_channel_destroy, k_channel_send, k_channel_accept,
  k_set_user_status, k_set_privacy_list, k_sense_service, k_admin, k_announce,
}
use meanwhile.Message.Dispatch.Laws.{kind_of-code}

-- A case of the switch in front of the others.
case_step :
    {rest : Option Kind} (t : ℕ) (k k' : Kind)
    → (rest ≡ some k → code k ≡ t)
    → (if t == code k' then some k' else rest) ≡ some k
    → code k ≡ t
case_step t k k' next e = elim (Bool-cases (t == code k')) [
  | inl hit ↦
      let same : some k' ≡ some k = sym (rw hit refl) ∙ e in
      let known : k' ≡ k = cc in let here : code k' ≡ t = ground arith in sym (ap code known) ∙ here
  | inr miss ↦ next (sym (rw miss refl) ∙ e)
]

-- A case that the switch takes is the one of its type.
code-kind_of : (t : ℕ) (k : Kind) → kind_of t ≡ some k → code k ≡ t
unfolding kind_of
code-kind_of t k = case_step t k k_handshake (
    case_step t k k_handshake_ack (
      case_step t k k_login (
        case_step t k k_login_redirect (
          case_step t k k_login_continue (
            case_step t k k_login_ack (
              case_step t k k_channel_create (
                case_step t k k_channel_destroy (
                  case_step t k k_channel_send (
                    case_step t k k_channel_accept (
                      case_step t k k_set_user_status (
                        case_step t k k_set_privacy_list (
                          case_step t k k_sense_service
                            (case_step t k k_admin (case_step t k k_announce (λ e. cc)))))))))))))))

kind-blank : (k : Kind) (h : MessageHead) → kind (blank k h) ≡ k
unfolding blank
kind-blank k_handshake h = refl
kind-blank _ h = refl

head_of-blank : (k : Kind) (h : MessageHead) → head_of (blank k h) ≡ h
unfolding blank
head_of-blank k_handshake h = refl
head_of-blank _ h = refl

kind_of-none : (t : ℕ) → ((k : Kind) → code k ≢ t) → kind_of t ≡ none
kind_of-none t h = none_of (kind_of t) refl
  where
    none_of : (o : Option Kind) → kind_of t ≡ o → o ≡ none
    none_of none e = refl
    none_of (some k) e = absurd (h k (code-kind_of t k e))

not_code : (t : ℕ) (k : Kind) → kind_of t ≡ none → code k ≢ t
not_code t k e same = let found : kind_of t ≡ some k = sym (ap kind_of same) ∙ kind_of-code k in cc

-- mwMessage_new of a type gives a message whose struct and whose head have this type, or else
-- NULL, and then no message has the type.
pub message_new_lem :
    (t : ℕ)
    → ((m : Message) × (message_new t ≡ some m) × (code (kind m) ≡ t) × ((head_of m).type_ ≡ t))
      ⊎ ((message_new t ≡ none) × ((k : Kind) → code k ≢ t))
unfolding message_new
message_new_lem t = new_of (kind_of t) refl
  where
    new_of :
        (o : Option Kind)
        → kind_of t ≡ o
        → ((m : Message) × (new_kind t o ≡ some m) × (code (kind m) ≡ t) × ((head_of m).type_ ≡ t))
          ⊎ ((new_kind t o ≡ none) × ((k : Kind) → code k ≢ t))
    new_of none e = inr (refl, λ k. not_code t k e)
    new_of (some k) e =
        let h : MessageHead = record message_head_zero { type_ = t } in
        inl (
          blank k h,
          refl,
          ap code (kind-blank k h) ∙ code-kind_of t k e,
          ap (λ (x : MessageHead). x.type_) (head_of-blank k h),
        )

-- mwMessage_get on a head that fits the wire and whose type is that of no message takes exactly
-- the head and returns NULL.
pub message_get_unknown :
    (u : Uninit) (h : MessageHead)
    → IsMessageHead h
    → ((k : Kind) → code k ≢ h.type_)
    → Reads (message_get u) (wire_message_head h) none
unfolding message_get kind_get
message_get_unknown u h ok unknown =
    Reads-end _ (message_head_get-Reads u.type_ u.options u.channel h ok)
      (unless_error-Reads none (rw (kind_of-none h.type_ unknown) (pure-Reads none)))
