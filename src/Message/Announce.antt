-- ===== src/Message/Announce.antt =====
-- struct mwMsgAnnounce (src/message.c, src/mw_message.h).
pub mod Laws
use meanwhile.Base.{
  ℕ, zero, suc, ◌^◌, ◌<◌, ◌≡◌, Bool, true, false, none, some, List, [], ◌∷◌, ◌++◌, length, All,
}
use meanwhile.Buffer.Opaque.{Opaque}
use meanwhile.Buffer.Put.{Put, ◌>>◌, skip, put_if}
use meanwhile.Buffer.Put.Laws.{bytes_if}
use meanwhile.Buffer.Get.{Get, ◌>>=◌, pure, branch, get_buffer_wrap}
use meanwhile.Basic.{
  Str, guint16_put, guint16_get, guint32_put, guint32_get, gboolean_put, gboolean_get, string_put,
  string_get, opaque_get,
}
use meanwhile.Basic.Nested.{nested}
use meanwhile.Basic.Wire.{
  wire16, wire32, wire_bool, wire_str, wire_opaque, IsWord16, IsWord32, IsStr,
}
use meanwhile.Common.LoginInfo.{
  LoginInfo, login_info_zero, login_info_put, login_info_get, wire_login_info, IsLoginInfo,
}
use meanwhile.Message.Head.{MessageHead}

pub record Announce : Type 0 where
  pub head : MessageHead
  pub sender_present : Bool
  pub sender : LoginInfo
  pub unknown_a : ℕ
  pub may_reply : Bool
  pub text : Str
  pub recipients : List Str

abbrev pub announce_zero : MessageHead → Announce
announce_zero head = record {
  head = head;
  sender_present = false;
  sender = login_info_zero;
  unknown_a = 0;
  may_reply = false;
  text = none;
  recipients = [];
}

-- while(count--), which puts each string in front of the list, also after an error.
unfoldable pub recipients_get : ℕ → List Str → Get (List Str)
recipients_get zero recipients = pure recipients
recipients_get (suc count) recipients = do r ← string_get; recipients_get count (r ∷ recipients)

unfoldable pub announce_text_get : Bool → Get (Bool × Str)
announce_text_get may_reply = do
  may_reply' ← gboolean_get may_reply
  text ← string_get
  pure (may_reply', text)

-- The text is read from a buffer of its own, `gb`; `uninit` is what the variable `count` holds
-- before it is read.
unfoldable pub announce_get : ℕ → Announce → Get Announce
announce_get uninit msg = do
  sender_present ← gboolean_get msg.sender_present
  sender ← branch sender_present (login_info_get msg.sender) (pure msg.sender)
  unknown_a ← guint16_get msg.unknown_a
  o ← opaque_get
  let gb = get_buffer_wrap (some o)
  let inner : Bool × Str = (announce_text_get msg.may_reply gb).0
  count ← guint32_get uninit
  recipients ← recipients_get count msg.recipients
  pure (record msg {
    sender_present = sender_present;
    sender = sender;
    unknown_a = unknown_a;
    may_reply = inner.0;
    text = inner.1;
    recipients = recipients;
  })

-- for(l = msg->recipients; l; l = l->next) mwString_put(b, l->data);
unfoldable pub recipients_put : List Str → Put
recipients_put [] = skip
recipients_put (r ∷ rs) = do string_put r; recipients_put rs

unfoldable pub announce_put : Announce → Put
announce_put msg = do
  gboolean_put msg.sender_present
  put_if msg.sender_present (login_info_put msg.sender)
  guint16_put msg.unknown_a
  nested do gboolean_put msg.may_reply; string_put msg.text
  guint32_put (length msg.recipients)
  recipients_put msg.recipients

unfoldable pub wire_strs : List Str → List ℕ
wire_strs [] = []
wire_strs (r ∷ rs) = wire_str r ++ wire_strs rs

unfoldable pub wire_announce : Announce → List ℕ
wire_announce m =
    wire_bool m.sender_present
    ++ (bytes_if m.sender_present (wire_login_info m.sender)
        ++ (wire16 m.unknown_a
            ++ (wire_opaque (wire_bool m.may_reply ++ wire_str m.text)
                ++ (wire32 (length m.recipients) ++ wire_strs m.recipients))))

pub record IsAnnounce (m : Announce) : Type 0 where
  pub sender_ok : IsLoginInfo m.sender
  pub brief : m.sender_present ≡ false → m.sender ≡ login_info_zero
  pub unknown_a_ok : IsWord16 m.unknown_a
  pub text_ok : IsStr m.text
  pub count_ok : IsWord32 (length m.recipients)
  pub recipients_ok : All IsStr m.recipients
