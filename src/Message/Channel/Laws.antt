-- ===== src/Message/Channel/Laws.antt =====
-- Writing and reading the channel messages.
use meanwhile.Base.{ℕ, ◌≡◌, sym, Bool, false, List, ◌++◌, append_assoc}
use meanwhile.Buffer.Put.{◌>>◌}
use meanwhile.Buffer.Put.Laws.{Writes, Writes->>, put_if-Writes, bytes_if}
use meanwhile.Buffer.Get.{branch, pure}
use meanwhile.Buffer.Get.Laws.{Reads, Reads->>=, Reads-end, pure-Reads, unless_error-Reads}
use meanwhile.Buffer.Get.Safe.{IsReader}
use meanwhile.Basic.Writes.{
  guint16_put-Writes, guint32_put-Writes, gboolean_put-Writes, opaque_put-Writes,
}
use meanwhile.Basic.Reads.{
  guint16_get-Reads, guint32_get-Reads, gboolean_get-Reads, opaque_get-Reads,
}
use meanwhile.Basic.Wire.{wire16}
use meanwhile.Basic.{guint16_put, guint32_put}
use meanwhile.Common.Rules.{safe_readers, branch-Reads, pure_eq-Reads}
use meanwhile.Common.Ids.Laws.{id_block_put-Writes, id_block_get-Reads, id_block_get-IsReader}
use meanwhile.Common.LoginInfo.{
  LoginInfo, login_info_zero, login_info_get, wire_login_info, IsLoginInfo,
}
use meanwhile.Common.LoginInfo.Laws.{
  login_info_put-Writes, login_info_get-Reads, login_info_get-IsReader,
}
use meanwhile.Message.Encrypt.{
  wire_enc_offer, wire_enc_accept, channel_end, offer_left, accept_left,
}
use meanwhile.Message.Encrypt.Laws.{
  enc_offer_put-Writes, enc_offer_get-Reads, enc_offer_get-IsReader, enc_accept_put-Writes,
  enc_accept_get-Reads, enc_accept_get-IsReader, sent_items-end, sent_item-end,
}
use meanwhile.Message.Channel.{
  ChannelCreate, channel_create_zero, channel_create_put, channel_create_get, ChannelAccept,
  channel_accept_zero, channel_accept_put, channel_accept_get, ChannelSend, channel_send_zero,
  channel_send_put, channel_send_get, ChannelDestroy, channel_destroy_zero, channel_destroy_put,
  channel_destroy_get,
}
use meanwhile.Message.Channel.Wire.{
  wire_create_front, wire_channel_create, wire_accept_front, wire_channel_accept, wire_channel_send,
  wire_channel_destroy, IsChannelCreate, IsChannelAccept, IsChannelSend, IsChannelDestroy,
}

-- The creator, or the acceptor, if its flag is set.
pub login_part :
    (c : Bool) (l : LoginInfo)
    → IsLoginInfo l
    → (c ≡ false → l ≡ login_info_zero)
    → Reads
        (branch c (login_info_get login_info_zero) (pure login_info_zero))
        (bytes_if c (wire_login_info l))
        l
login_part c l h brief =
    branch-Reads c (λ e. login_info_get-Reads l h) (λ e. pure_eq-Reads (sym (brief e)))

channel_end-Writes : Writes (guint32_put 0 >> (guint32_put 0 >> guint16_put 7)) channel_end
channel_end-Writes =
    Writes->> (guint32_put-Writes 0) (Writes->> (guint32_put-Writes 0) (guint16_put-Writes 7))

pub channel_create_get-IsReader :
    (u : ℕ × ℕ) (old : ChannelCreate) → IsReader (channel_create_get u old)
unfolding channel_create_get
channel_create_get-IsReader u old =
    search (safe_readers, id_block_get-IsReader, login_info_get-IsReader, enc_offer_get-IsReader)
      depth 16

pub channel_create_get-Reads :
    (u : ℕ × ℕ) (m : ChannelCreate)
    → IsChannelCreate m
    → Reads (channel_create_get u (channel_create_zero m.head)) (wire_channel_create m) m
unfolding channel_create_get wire_create_front
channel_create_get-Reads u m h = unless_error-Reads _ (
    Reads->>= _ (guint32_get-Reads _ _ h.reserved_ok) (
      Reads->>= _ (guint32_get-Reads _ _ h.channel_ok) (
        Reads->>= _ (id_block_get-Reads _ m.target h.target_ok) (
          Reads->>= _ (guint32_get-Reads _ _ h.service_ok) (
            Reads->>= _ (guint32_get-Reads _ _ h.proto_type_ok) (
              Reads->>= _ (guint32_get-Reads _ _ h.proto_ver_ok) (
                Reads->>= _ (guint32_get-Reads _ _ h.options_ok) (
                  Reads->>= _ (opaque_get-Reads _ h.addtl_ok) (
                    Reads->>= _ (gboolean_get-Reads _ _) (
                      Reads->>= _ (login_part _ m.creator h.creator_ok h.brief) (
                        Reads-end _ (enc_offer_get-Reads u m.encrypt h.encrypt_ok)
                          (pure-Reads _))))))))))))

pub channel_accept_get-IsReader :
    (u : ℕ) (old : ChannelAccept) → IsReader (channel_accept_get u old)
unfolding channel_accept_get
channel_accept_get-IsReader u old =
    search (safe_readers, login_info_get-IsReader, enc_accept_get-IsReader) depth 14

pub channel_accept_get-Reads :
    (u : ℕ) (m : ChannelAccept)
    → IsChannelAccept m
    → Reads (channel_accept_get u (channel_accept_zero m.head)) (wire_channel_accept m) m
unfolding channel_accept_get wire_accept_front
channel_accept_get-Reads u m h = unless_error-Reads _ (
    Reads->>= _ (guint32_get-Reads _ _ h.service_ok) (
      Reads->>= _ (guint32_get-Reads _ _ h.proto_type_ok) (
        Reads->>= _ (guint32_get-Reads _ _ h.proto_ver_ok) (
          Reads->>= _ (opaque_get-Reads _ h.addtl_ok) (
            Reads->>= _ (gboolean_get-Reads _ _) (
              Reads->>= _ (login_part _ m.acceptor h.acceptor_ok h.brief)
                (Reads-end _ (enc_accept_get-Reads u m.encrypt h.encrypt_ok) (pure-Reads _))))))))

-- Behind what a reader takes, zeros and a 7 are left.
pub channel_create_put-Writes :
    (m : ChannelCreate)
    → IsChannelCreate m
    → Writes
        (channel_create_put m)
        (wire_create_front m (wire_enc_offer m.encrypt ++ offer_left m.encrypt.items))
unfolding channel_create_put wire_create_front wire_enc_offer
channel_create_put-Writes m h =
    rw
      (
        append_assoc (wire16 m.encrypt.mode),
        ← sent_items-end m.encrypt m.encrypt.items,
        ← append_assoc (wire16 m.encrypt.mode),
      )
      (Writes->> (guint32_put-Writes _) (
        Writes->> (guint32_put-Writes _) (
          Writes->> (id_block_put-Writes m.target) (
            Writes->> (guint32_put-Writes _) (
              Writes->> (guint32_put-Writes _) (
                Writes->> (guint32_put-Writes _) (
                  Writes->> (guint32_put-Writes _) (
                    Writes->> (opaque_put-Writes m.addtl h.addtl_ok) (
                      Writes->> (gboolean_put-Writes _) (
                        Writes->> (put_if-Writes _ (login_info_put-Writes m.creator)) (
                          Writes->> (enc_offer_put-Writes m.encrypt h.encrypt_ok)
                            channel_end-Writes)))))))))))

pub channel_accept_put-Writes :
    (m : ChannelAccept)
    → IsChannelAccept m
    → Writes
        (channel_accept_put m)
        (wire_accept_front m (wire_enc_accept m.encrypt ++ accept_left m.encrypt.item))
unfolding channel_accept_put wire_accept_front wire_enc_accept
channel_accept_put-Writes m h =
    rw
      (
        append_assoc (wire16 m.encrypt.mode),
        ← sent_item-end m.encrypt.item m.encrypt.extra m.encrypt.flag,
        ← append_assoc (wire16 m.encrypt.mode),
      )
      (Writes->> (guint32_put-Writes _) (
        Writes->> (guint32_put-Writes _) (
          Writes->> (guint32_put-Writes _) (
            Writes->> (opaque_put-Writes m.addtl h.addtl_ok) (
              Writes->> (gboolean_put-Writes _) (
                Writes->> (put_if-Writes _ (login_info_put-Writes m.acceptor)) (
                  Writes->> (enc_accept_put-Writes m.encrypt h.encrypt_ok) channel_end-Writes)))))))

pub channel_send_put-Writes :
    (m : ChannelSend) → IsChannelSend m → Writes (channel_send_put m) (wire_channel_send m)
unfolding channel_send_put wire_channel_send
channel_send_put-Writes m h =
    Writes->> (guint16_put-Writes m.type_) (opaque_put-Writes m.data_ h.data_ok)

pub channel_send_get-IsReader : (old : ChannelSend) → IsReader (channel_send_get old)
unfolding channel_send_get
channel_send_get-IsReader old = search safe_readers depth 8

pub channel_send_get-Reads :
    (m : ChannelSend)
    → IsChannelSend m
    → Reads (channel_send_get (channel_send_zero m.head)) (wire_channel_send m) m
unfolding channel_send_get wire_channel_send
channel_send_get-Reads m h = unless_error-Reads _ (
    Reads->>= _ (guint16_get-Reads _ _ h.type_ok)
      (Reads-end _ (opaque_get-Reads _ h.data_ok) (pure-Reads _)))

pub channel_destroy_put-Writes :
    (m : ChannelDestroy)
    → IsChannelDestroy m
    → Writes (channel_destroy_put m) (wire_channel_destroy m)
unfolding channel_destroy_put wire_channel_destroy
channel_destroy_put-Writes m h =
    Writes->> (guint32_put-Writes m.reason) (opaque_put-Writes m.data_ h.data_ok)

pub channel_destroy_get-IsReader : (old : ChannelDestroy) → IsReader (channel_destroy_get old)
unfolding channel_destroy_get
channel_destroy_get-IsReader old = search safe_readers depth 8

pub channel_destroy_get-Reads :
    (m : ChannelDestroy)
    → IsChannelDestroy m
    → Reads (channel_destroy_get (channel_destroy_zero m.head)) (wire_channel_destroy m) m
unfolding channel_destroy_get wire_channel_destroy
channel_destroy_get-Reads m h = unless_error-Reads _ (
    Reads->>= _ (guint32_get-Reads _ _ h.reason_ok)
      (Reads-end _ (opaque_get-Reads _ h.data_ok) (pure-Reads _)))

pub wire_create_front-append :
    (m : ChannelCreate) (xs ys : List ℕ)
    → wire_create_front m xs ++ ys ≡ wire_create_front m (xs ++ ys)
unfolding wire_create_front
wire_create_front-append m xs ys = simp append_assoc

pub wire_accept_front-append :
    (m : ChannelAccept) (xs ys : List ℕ)
    → wire_accept_front m xs ++ ys ≡ wire_accept_front m (xs ++ ys)
unfolding wire_accept_front
wire_accept_front-append m xs ys = simp append_assoc
