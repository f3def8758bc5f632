-- ===== src/Message/Channel.antt =====
-- The channel messages: struct mwMsgChannelCreate, mwMsgChannelAccept, mwMsgChannelSend and
-- mwMsgChannelDestroy (src/message.c, src/mw_message.h).
pub mod Wire
pub mod Laws
use meanwhile.Base.{ℕ, ◌≡◌, Bool, true, false, some, List, ◌++◌}
use meanwhile.Buffer.Opaque.{Opaque, opaque_empty, opaque_bytes}
use meanwhile.Buffer.Put.{Put, ◌>>◌, put_if}
use meanwhile.Buffer.Put.Laws.{bytes_if}
use meanwhile.Buffer.Get.{Get, ◌>>=◌, pure, unless_error, branch}
use meanwhile.Basic.{
  guint16_put, guint16_get, guint32_put, guint32_get, gboolean_put, gboolean_get, opaque_put,
  opaque_get,
}
use meanwhile.Basic.Wire.{wire16, wire32, wire_bool, wire_opaque, IsWord16, IsWord32, IsOpaque}
use meanwhile.Common.Ids.{
  IdBlock, id_block_zero, id_block_put, id_block_get, wire_id_block, IsIdBlock,
}
use meanwhile.Common.LoginInfo.{
  LoginInfo, login_info_zero, login_info_put, login_info_get, wire_login_info, IsLoginInfo,
}
use meanwhile.Message.Head.{MessageHead}
use meanwhile.Message.Encrypt.{
  EncryptOffer, encrypt_offer_zero, enc_offer_put, enc_offer_get, wire_enc_offer, IsEncryptOffer,
  EncryptAccept, encrypt_accept_zero, enc_accept_put, enc_accept_get, wire_enc_accept,
  IsEncryptAccept,
}

pub record ChannelCreate : Type 0 where
  pub head : MessageHead
  pub reserved : ℕ
  pub channel : ℕ
  pub target : IdBlock
  pub service : ℕ
  pub proto_type : ℕ
  pub proto_ver : ℕ
  pub options : ℕ
  pub addtl : Opaque
  pub creator_flag : Bool
  pub creator : LoginInfo
  pub encrypt : EncryptOffer

abbrev pub channel_create_zero : MessageHead → ChannelCreate
channel_create_zero head = record {
  head = head;
  reserved = 0;
  channel = 0;
  target = id_block_zero;
  service = 0;
  proto_type = 0;
  proto_ver = 0;
  options = 0;
  addtl = opaque_empty;
  creator_flag = false;
  creator = login_info_zero;
  encrypt = encrypt_offer_zero;
}

unfoldable pub channel_create_put : ChannelCreate → Put
channel_create_put msg = do
  guint32_put msg.reserved
  guint32_put msg.channel
  id_block_put msg.target
  guint32_put msg.service
  guint32_put msg.proto_type
  guint32_put msg.proto_ver
  guint32_put msg.options
  opaque_put (some msg.addtl)
  gboolean_put msg.creator_flag
  put_if msg.creator_flag (login_info_put msg.creator)
  enc_offer_put msg.encrypt
  guint32_put 0x00
  guint32_put 0x00
  guint16_put 0x07

unfoldable pub channel_create_get : ℕ × ℕ → ChannelCreate → Get ChannelCreate
channel_create_get uninit msg = unless_error msg do
  reserved ← guint32_get msg.reserved
  channel ← guint32_get msg.channel
  target ← id_block_get msg.target
  service ← guint32_get msg.service
  proto_type ← guint32_get msg.proto_type
  proto_ver ← guint32_get msg.proto_ver
  options ← guint32_get msg.options
  addtl ← opaque_get
  creator_flag ← gboolean_get msg.creator_flag
  creator ← branch creator_flag (login_info_get msg.creator) (pure msg.creator)
  encrypt ← enc_offer_get uninit msg.encrypt
  pure (record msg {
    reserved = reserved;
    channel = channel;
    target = target;
    service = service;
    proto_type = proto_type;
    proto_ver = proto_ver;
    options = options;
    addtl = addtl;
    creator_flag = creator_flag;
    creator = creator;
    encrypt = encrypt;
  })

pub record ChannelAccept : Type 0 where
  pub head : MessageHead
  pub service : ℕ
  pub proto_type : ℕ
  pub proto_ver : ℕ
  pub addtl : Opaque
  pub acceptor_flag : Bool
  pub acceptor : LoginInfo
  pub encrypt : EncryptAccept

abbrev pub channel_accept_zero : MessageHead → ChannelAccept
channel_accept_zero head = record {
  head = head;
  service = 0;
  proto_type = 0;
  proto_ver = 0;
  addtl = opaque_empty;
  acceptor_flag = false;
  acceptor = login_info_zero;
  encrypt = encrypt_accept_zero;
}

unfoldable pub channel_accept_put : ChannelAccept → Put
channel_accept_put msg = do
  guint32_put msg.service
  guint32_put msg.proto_type
  guint32_put msg.proto_ver
  opaque_put (some msg.addtl)
  gboolean_put msg.acceptor_flag
  put_if msg.acceptor_flag (login_info_put msg.acceptor)
  enc_accept_put msg.encrypt
  guint32_put 0x00
  guint32_put 0x00
  guint16_put 0x07

unfoldable pub channel_accept_get : ℕ → ChannelAccept → Get ChannelAccept
channel_accept_get uninit msg = unless_error msg do
  service ← guint32_get msg.service
  proto_type ← guint32_get msg.proto_type
  proto_ver ← guint32_get msg.proto_ver
  addtl ← opaque_get
  acceptor_flag ← gboolean_get msg.acceptor_flag
  acceptor ← branch acceptor_flag (login_info_get msg.acceptor) (pure msg.acceptor)
  encrypt ← enc_accept_get uninit msg.encrypt
  pure (record msg {
    service = service;
    proto_type = proto_type;
    proto_ver = proto_ver;
    addtl = addtl;
    acceptor_flag = acceptor_flag;
    acceptor = acceptor;
    encrypt = encrypt;
  })

pub record ChannelSend : Type 0 where
  pub head : MessageHead
  pub type_ : ℕ
  pub data_ : Opaque

abbrev pub channel_send_zero : MessageHead → ChannelSend
channel_send_zero head = record { head = head; type_ = 0; data_ = opaque_empty }

unfoldable pub channel_send_put : ChannelSend → Put
channel_send_put msg = do guint16_put msg.type_; opaque_put (some msg.data_)

unfoldable pub channel_send_get : ChannelSend → Get ChannelSend
channel_send_get msg = unless_error msg do
  type_ ← guint16_get msg.type_
  data_ ← opaque_get
  pure (record msg { type_ = type_; data_ = data_ })

pub record ChannelDestroy : Type 0 where
  pub head : MessageHead
  pub reason : ℕ
  pub data_ : Opaque

abbrev pub channel_destroy_zero : MessageHead → ChannelDestroy
channel_destroy_zero head = record { head = head; reason = 0; data_ = opaque_empty }

unfoldable pub channel_destroy_put : ChannelDestroy → Put
channel_destroy_put msg = do guint32_put msg.reason; opaque_put (some msg.data_)

unfoldable pub channel_destroy_get : ChannelDestroy → Get ChannelDestroy
channel_destroy_get msg = unless_error msg do
  reason ← guint32_get msg.reason
  data_ ← opaque_get
  pure (record msg { reason = reason; data_ = data_ })
