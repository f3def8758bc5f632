-- ===== src/Message/Head.antt =====
-- struct mwMessage, the head that every message starts with (src/message.c, src/mw_message.h).
pub mod Laws
use meanwhile.Base.{ℕ, ◌/◌, ◌%◌, ◌^◌, ◌≡◌, Bool, true, false, not, some, List, ◌++◌, ◌==◌}
use meanwhile.Buffer.Opaque.{Opaque, opaque_empty, opaque_bytes}
use meanwhile.Buffer.Put.{Put, ◌>>◌, put_if}
use meanwhile.Buffer.Put.Laws.{bytes_if}
use meanwhile.Buffer.Get.{Get, ◌>>=◌, pure, unless_error, branch}
use meanwhile.Basic.{
  guint16_put, guint16_get, guint32_put, guint32_get, opaque_put, opaque_get, opaque_clone,
}
use meanwhile.Basic.Wire.{wire16, wire32, wire_opaque, IsWord16, IsWord32, IsOpaque}

pub record MessageHead : Type 0 where
  pub type_ : ℕ
  pub options : ℕ
  pub channel : ℕ
  pub attribs : Opaque

abbrev pub message_head_zero : MessageHead
message_head_zero = record { type_ = 0; options = 0; channel = 0; attribs = opaque_empty }

-- options & mwMessageOption_HAS_ATTRIBS, which is 0x8000
abbrev pub has_attribs : ℕ → Bool
has_attribs options = not (options / 2 ^ 15 % 2 == 0)

unfoldable pub message_head_put : MessageHead → Put
message_head_put msg = do
  guint16_put msg.type_
  guint16_put msg.options
  guint32_put msg.channel
  put_if (has_attribs msg.options) (opaque_put (some msg.attribs))

unfoldable pub message_head_get_attribs : MessageHead → Get MessageHead
message_head_get_attribs msg = do attribs ← opaque_get; pure (record msg { attribs = attribs })

unfoldable pub message_head_get : MessageHead → Get MessageHead
message_head_get msg = unless_error msg do
  type_ ← guint16_get msg.type_
  options ← guint16_get msg.options
  channel ← guint32_get msg.channel
  let msg' : MessageHead = record msg { type_ = type_; options = options; channel = channel }
  branch (has_attribs options) (message_head_get_attribs msg') (pure msg')

unfoldable pub message_head_clone : MessageHead → MessageHead
message_head_clone from = record from { attribs = opaque_clone (some from.attribs) }

unfoldable pub wire_message_head : MessageHead → List ℕ
wire_message_head h =
    wire16 h.type_
    ++ (wire16 h.options
        ++ (wire32 h.channel
            ++ bytes_if (has_attribs h.options) (wire_opaque (opaque_bytes h.attribs))))

pub record IsMessageHead (h : MessageHead) : Type 0 where
  pub type_ok : IsWord16 h.type_
  pub options_ok : IsWord16 h.options
  pub channel_ok : IsWord32 h.channel
  pub attribs_ok : IsOpaque h.attribs
  pub brief : has_attribs h.options ≡ false → h.attribs ≡ opaque_empty
