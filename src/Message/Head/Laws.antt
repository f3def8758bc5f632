-- ===== src/Message/Head/Laws.antt =====
-- Writing, reading and copying the head of a message.
use meanwhile.Base.{ℕ, ◌≡◌, refl, sym, some, List, [], ◌∷◌, suc_not_zero, length}
use mathlib.Core.Path.{subst}
use meanwhile.Buffer.Opaque.{Opaque, opaque_empty, opaque_bytes, opaque_of, opaque_bytes-opaque_of}
use meanwhile.Buffer.Put.Laws.{Writes, Writes->>, put_if-Writes, bytes_if}
use meanwhile.Buffer.Get.{branch, pure}
use meanwhile.Buffer.Get.Laws.{Reads, Reads->>=, Reads-end, pure-Reads, unless_error-Reads}
use meanwhile.Buffer.Get.Safe.{IsReader}
use meanwhile.Basic.{opaque_clone}
use meanwhile.Basic.Writes.{guint16_put-Writes, guint32_put-Writes, opaque_put-Writes}
use meanwhile.Basic.Reads.{guint16_get-Reads, guint32_get-Reads, opaque_get-Reads}
use meanwhile.Basic.Wire.{wire_opaque, IsOpaque}
use meanwhile.Common.Rules.{safe_readers, branch-Reads, pure_eq-Reads}
use meanwhile.Message.Head.{
  MessageHead, has_attribs, message_head_put, message_head_get, message_head_get_attribs,
  message_head_clone, wire_message_head, IsMessageHead,
}

pub message_head_put-Writes :
    (h : MessageHead) → IsMessageHead h → Writes (message_head_put h) (wire_message_head h)
unfolding message_head_put wire_message_head
message_head_put-Writes h ok = Writes->> (guint16_put-Writes h.type_) (
    Writes->> (guint16_put-Writes h.options) (
      Writes->> (guint32_put-Writes h.channel)
        (put_if-Writes (has_attribs h.options) (opaque_put-Writes h.attribs ok.attribs_ok))))

pub message_head_get-IsReader : (old : MessageHead) → IsReader (message_head_get old)
unfolding message_head_get message_head_get_attribs
message_head_get-IsReader old = search safe_readers depth 10

abbrev bare : MessageHead → MessageHead
bare h = record h { attribs = opaque_empty }

message_head_rest :
    (h : MessageHead)
    → IsMessageHead h
    → Reads
        (branch (has_attribs h.options) (message_head_get_attribs (bare h)) (pure (bare h)))
        (bytes_if (has_attribs h.options) (wire_opaque (opaque_bytes h.attribs)))
        h
unfolding message_head_get_attribs
message_head_rest h ok =
    branch-Reads (has_attribs h.options)
      (λ e. Reads-end _ (opaque_get-Reads _ ok.attribs_ok) (pure-Reads _))
      (λ e. pure_eq-Reads (λ i. record h { attribs = sym (ok.brief e) i }))

-- The target's attributes are empty, its other fields may hold anything.
pub message_head_get-Reads :
    (t o c : ℕ) (h : MessageHead)
    → IsMessageHead h
    → Reads
        (message_head_get (record { type_ = t; options = o; channel = c; attribs = opaque_empty }))
        (wire_message_head h)
        h
unfolding message_head_get wire_message_head
message_head_get-Reads t o c h ok = unless_error-Reads _ (
    Reads->>= _ (guint16_get-Reads _ _ ok.type_ok) (
      Reads->>= _ (guint16_get-Reads _ _ ok.options_ok)
        (Reads->>= _ (guint32_get-Reads _ _ ok.channel_ok) (message_head_rest h ok))))

opaque_clone-opaque_of : (bytes : List ℕ) → opaque_clone (some (opaque_of bytes)) ≡ opaque_of bytes
unfolding opaque_clone
opaque_clone-opaque_of [] = refl
opaque_clone-opaque_of (x ∷ xs) = rw (suc_not_zero (length xs), opaque_bytes-opaque_of (x ∷ xs))

pub opaque_clone_lem : (o : Opaque) → IsOpaque o → opaque_clone (some o) ≡ o
opaque_clone_lem o h =
    subst (λ (p : Opaque). opaque_clone (some p) ≡ p) h.plain
      (opaque_clone-opaque_of (opaque_bytes o))

pub message_head_clone_lem : (h : MessageHead) → IsMessageHead h → message_head_clone h ≡ h
unfolding message_head_clone
message_head_clone_lem h ok = λ i. record h { attribs = opaque_clone_lem h.attribs ok.attribs_ok i }
