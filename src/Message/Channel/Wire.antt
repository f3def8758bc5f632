-- ===== src/Message/Channel/Wire.antt =====
-- The wire format of the channel messages, as a reader takes it.
use meanwhile.Base.{ℕ, ◌≡◌, false, List, ◌++◌}
use meanwhile.Buffer.Opaque.{opaque_bytes}
use meanwhile.Buffer.Put.Laws.{bytes_if}
use meanwhile.Basic.Wire.{wire16, wire32, wire_bool, wire_opaque, IsWord16, IsWord32, IsOpaque}
use meanwhile.Common.Ids.{wire_id_block, IsIdBlock}
use meanwhile.Common.LoginInfo.{login_info_zero, wire_login_info, IsLoginInfo}
use meanwhile.Message.Encrypt.{wire_enc_offer, IsEncryptOffer, wire_enc_accept, IsEncryptAccept}
use meanwhile.Message.Channel.{ChannelCreate, ChannelAccept, ChannelSend, ChannelDestroy}

-- What stands in front of the encryption block.
unfoldable pub wire_create_front : ChannelCreate → List ℕ → List ℕ
wire_create_front m end_ =
    wire32 m.reserved
    ++ (wire32 m.channel
        ++ (wire_id_block m.target
            ++ (wire32 m.service
                ++ (wire32 m.proto_type
                    ++ (wire32 m.proto_ver
                        ++ (wire32 m.options
                            ++ (wire_opaque (opaque_bytes m.addtl)
                                ++ (wire_bool m.creator_flag
                                    ++ (bytes_if m.creator_flag (wire_login_info m.creator)
                                        ++ end_)))))))))

abbrev pub wire_channel_create : ChannelCreate → List ℕ
wire_channel_create m = wire_create_front m (wire_enc_offer m.encrypt)

unfoldable pub wire_accept_front : ChannelAccept → List ℕ → List ℕ
wire_accept_front m end_ =
    wire32 m.service
    ++ (wire32 m.proto_type
        ++ (wire32 m.proto_ver
            ++ (wire_opaque (opaque_bytes m.addtl)
                ++ (wire_bool m.acceptor_flag
                    ++ (bytes_if m.acceptor_flag (wire_login_info m.acceptor) ++ end_)))))

abbrev pub wire_channel_accept : ChannelAccept → List ℕ
wire_channel_accept m = wire_accept_front m (wire_enc_accept m.encrypt)

unfoldable pub wire_channel_send : ChannelSend → List ℕ
wire_channel_send m = wire16 m.type_ ++ wire_opaque (opaque_bytes m.data_)

unfoldable pub wire_channel_destroy : ChannelDestroy → List ℕ
wire_channel_destroy m = wire32 m.reason ++ wire_opaque (opaque_bytes m.data_)

pub record IsChannelCreate (m : ChannelCreate) : Type 0 where
  pub reserved_ok : IsWord32 m.reserved
  pub channel_ok : IsWord32 m.channel
  pub target_ok : IsIdBlock m.target
  pub service_ok : IsWord32 m.service
  pub proto_type_ok : IsWord32 m.proto_type
  pub proto_ver_ok : IsWord32 m.proto_ver
  pub options_ok : IsWord32 m.options
  pub addtl_ok : IsOpaque m.addtl
  pub creator_ok : IsLoginInfo m.creator
  pub brief : m.creator_flag ≡ false → m.creator ≡ login_info_zero
  pub encrypt_ok : IsEncryptOffer m.encrypt

pub record IsChannelAccept (m : ChannelAccept) : Type 0 where
  pub service_ok : IsWord32 m.service
  pub proto_type_ok : IsWord32 m.proto_type
  pub proto_ver_ok : IsWord32 m.proto_ver
  pub addtl_ok : IsOpaque m.addtl
  pub acceptor_ok : IsLoginInfo m.acceptor
  pub brief : m.acceptor_flag ≡ false → m.acceptor ≡ login_info_zero
  pub encrypt_ok : IsEncryptAccept m.encrypt

pub record IsChannelSend (m : ChannelSend) : Type 0 where
  pub type_ok : IsWord16 m.type_
  pub data_ok : IsOpaque m.data_

pub record IsChannelDestroy (m : ChannelDestroy) : Type 0 where
  pub reason_ok : IsWord32 m.reason
  pub data_ok : IsOpaque m.data_
