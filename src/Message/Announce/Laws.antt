-- ===== src/Message/Announce/Laws.antt =====
-- Writing and reading an announcement.
use meanwhile.Base.{
  ℕ, zero, suc, ◌^◌, ◌<◌, ◌≡◌, refl, ap, ◌∙◌, arith, Bool, true, false, none, some, List, [], ◌∷◌,
  ◌++◌, append_assoc, append-nil, length, replicate, replicate_push, All,
}
use mathlib.Core.Path.{subst}
use mathlib.Core.List.{reverse, reverse-cons}
use meanwhile.Buffer.Opaque.{opaque_of, opaque_bytes-opaque_of, len-opaque_of}
use meanwhile.Buffer.Put.Laws.{Writes, Writes->>, skip-Writes, put_if-Writes}
use meanwhile.Buffer.Get.{GetBuffer, ◌>>=◌, pure, get_buffer_wrap}
use meanwhile.Buffer.Get.Laws.{Reads, Reads->>=, Reads-end, pure-Reads, Reads-all}
use meanwhile.Buffer.Get.Safe.{IsReader, IsReader->>=, pure-IsReader, unless_error_stop}
use meanwhile.Basic.{Str, string_get}
use meanwhile.Basic.Nested.Laws.{nested-Writes, get_buffer_wrap-cursor}
use meanwhile.Basic.Writes.{
  guint16_put-Writes, guint32_put-Writes, gboolean_put-Writes, string_put-Writes,
}
use meanwhile.Basic.Reads.{
  guint16_get-Reads, guint32_get-Reads, gboolean_get-Reads, string_get-Reads, opaque_get-bytes,
}
use meanwhile.Basic.Safe.{string_get-IsReader}
use meanwhile.Basic.Wire.{wire_bool, wire_str, wire16, IsStr}
use meanwhile.Common.Rules.{safe_readers, pure_eq-Reads}
use meanwhile.Common.LoginInfo.Laws.{login_info_put-Writes, login_info_get-IsReader}
use meanwhile.Message.Channel.Laws.{login_part}
use meanwhile.Message.Announce.{
  Announce, announce_zero, recipients_get, announce_text_get, announce_get, recipients_put,
  announce_put, wire_strs, wire_announce, IsAnnounce,
}

recipients_put-Writes : (rs : List Str) → Writes (recipients_put rs) (wire_strs rs)
unfolding recipients_put wire_strs
recipients_put-Writes [] = skip-Writes
recipients_put-Writes (r ∷ rs) = Writes->> (string_put-Writes r) (recipients_put-Writes rs)

pub announce_put-Writes : (m : Announce) → Writes (announce_put m) (wire_announce m)
unfolding announce_put wire_announce
announce_put-Writes m = Writes->> (gboolean_put-Writes m.sender_present) (
    Writes->> (put_if-Writes _ (login_info_put-Writes m.sender)) (
      Writes->> (guint16_put-Writes m.unknown_a) (
        Writes->>
          (nested-Writes (Writes->> (gboolean_put-Writes m.may_reply) (string_put-Writes m.text)))
          (Writes->> (guint32_put-Writes _) (recipients_put-Writes m.recipients)))))

recipients_get-IsReader : (n : ℕ) (rs : List Str) → IsReader (recipients_get n rs)
unfolding recipients_get
recipients_get-IsReader zero rs = pure-IsReader rs
recipients_get-IsReader (suc n) rs =
    IsReader->>= _ string_get-IsReader (λ r. recipients_get-IsReader n (r ∷ rs))

pub announce_get-IsReader : (u : ℕ) (old : Announce) → IsReader (announce_get u old)
unfolding announce_get
announce_get-IsReader u old =
    search (safe_readers, login_info_get-IsReader, recipients_get-IsReader) depth 14

-- The strings come back in the opposite order.
recipients_get-Reads :
    (rs acc : List Str)
    → All IsStr rs
    → Reads (recipients_get (length rs) acc) (wire_strs rs) (reverse rs ++ acc)
unfolding recipients_get wire_strs
recipients_get-Reads [] acc h = pure-Reads acc
recipients_get-Reads (r ∷ rs) acc h =
    Reads->>= _ (string_get-Reads r h.0)
      (subst (Reads _ (wire_strs rs)) (turn r rs acc) (recipients_get-Reads rs (r ∷ acc) h.1))
  where
    turn : (r : Str) (rs acc : List Str) → reverse rs ++ (r ∷ acc) ≡ reverse (r ∷ rs) ++ acc
    turn r rs acc = rw (reverse-cons r rs, append_assoc (reverse rs) (r ∷ []) acc)

announce_text_get-Reads :
    (f old : Bool) (s : Str)
    → IsStr s
    → Reads (announce_text_get old) (wire_bool f ++ wire_str s) (f, s)
unfolding announce_text_get
announce_text_get-Reads f old s h =
    Reads->>= _ (gboolean_get-Reads old f) (Reads-end _ (string_get-Reads s h) (pure-Reads (f, s)))

text_small : (f : Bool) (s : Str) → IsStr s → length (wire_bool f ++ wire_str s) < 2 ^ 32
unfolding wire_bool wire_str wire16
text_small f s h = omega (arith, h.short)

-- The text, from its own buffer.
announce_text :
    (f old : Bool) (s : Str)
    → IsStr s
    → let bytes = wire_bool f ++ wire_str s in
      (announce_text_get old (get_buffer_wrap (some (opaque_of bytes)))).0 ≡ (f, s)
announce_text f old s h =
    let bytes = wire_bool f ++ wire_str s in
    rw
      (get_buffer_wrap-cursor (opaque_of bytes) bytes (len-opaque_of bytes)
        (opaque_bytes-opaque_of bytes))
      (ap (λ (p : (Bool × Str) × GetBuffer). p.0)
        (Reads-all true (announce_text_get-Reads f old s h)))

-- ANNOUNCE_get into a new message takes exactly the wire format of an announcement that fits the
-- wire and gives it with its recipients in the opposite order.
pub announce_get-Reads :
    (u : ℕ) (m : Announce)
    → IsAnnounce m
    → Reads
        (announce_get u (announce_zero m.head))
        (wire_announce m)
        (record m { recipients = reverse m.recipients })
unfolding announce_get wire_announce
announce_get-Reads u m h =
    let bytes = wire_bool m.may_reply ++ wire_str m.text in
    Reads->>= _ (gboolean_get-Reads _ _) (
      Reads->>= _ (login_part _ m.sender h.sender_ok h.brief) (
        Reads->>= _ (guint16_get-Reads _ _ h.unknown_a_ok) (
          Reads->>= _ (opaque_get-bytes bytes (text_small m.may_reply m.text h.text_ok)) (
            Reads->>= _ (guint32_get-Reads _ _ h.count_ok) (
              Reads-end _
                (subst (Reads _ (wire_strs m.recipients)) (append-nil (reverse m.recipients))
                  (recipients_get-Reads m.recipients [] h.recipients_ok))
                (pure_eq-Reads (
                  ap
                    (λ (p : Bool × Str). record m {
                      may_reply = p.0;
                      text = p.1;
                      recipients = reverse m.recipients;
                    })
                    (announce_text m.may_reply false m.text h.text_ok))))))))

string_get_stop : (b : GetBuffer) → b.error ≡ true → string_get b ≡ (none, b)
unfolding string_get
string_get_stop b e = unless_error_stop none _ b e

-- The loop of ANNOUNCE_get on a buffer that has an error: each of the `n` rounds puts a NULL in
-- front of the list, and the buffer stays as it is.
pub recipients_get_flood :
    (n : ℕ) (acc : List Str) (b : GetBuffer)
    → b.error ≡ true
    → recipients_get n acc b ≡ (replicate n none ++ acc, b)
unfolding recipients_get ◌>>=◌ pure
recipients_get_flood zero acc b e = refl
recipients_get_flood (suc n) acc b e = rw (string_get_stop b e) (
    recipients_get_flood n (none ∷ acc) b e
    ∙ ap (λ (t : List Str). (t, b)) (replicate_push n none acc))
