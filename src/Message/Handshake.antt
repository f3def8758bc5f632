-- ===== src/Message/Handshake.antt =====
-- struct mwMsgHandshake and struct mwMsgHandshakeAck (src/message.c, src/mw_message.h).
pub mod Laws
use meanwhile.Base.{ℕ, ◌≡◌, Bool, true, false, ◌&&◌, none, some, List, ◌++◌, leb, ltb}
use meanwhile.Buffer.Opaque.{Opaque, opaque_empty, opaque_bytes}
use meanwhile.Buffer.Put.{Put, ◌>>◌, put_if}
use meanwhile.Buffer.Put.Laws.{bytes_if}
use meanwhile.Buffer.Get.{Get, ◌>>=◌, pure, unless_error, branch}
use meanwhile.Basic.{
  Str, guint16_put, guint16_get, guint32_put, guint32_get, string_put, string_get, opaque_put,
  opaque_get,
}
use meanwhile.Basic.Wire.{
  wire16, wire32, wire_str, wire_opaque, IsWord16, IsWord32, IsStr, IsOpaque,
}
use meanwhile.Message.Head.{MessageHead}

pub record Handshake : Type 0 where
  pub head : MessageHead
  pub major : ℕ
  pub minor : ℕ
  pub srvrcalc_addr : ℕ
  pub login_type : ℕ
  pub loclcalc_addr : ℕ
  pub unknown_a : ℕ
  pub unknown_b : ℕ
  pub local_host : Str

abbrev pub handshake_zero : MessageHead → Handshake
handshake_zero head = record {
  head = head;
  major = 0;
  minor = 0;
  srvrcalc_addr = 0;
  login_type = 0;
  loclcalc_addr = 0;
  unknown_a = 0;
  unknown_b = 0;
  local_host = none;
}

-- msg->major >= 0x001e && msg->minor >= 0x001d
abbrev pub sends_host : ℕ → ℕ → Bool
sends_host major minor = leb 0x1e major && leb 0x1d minor

unfoldable pub handshake_put : Handshake → Put
handshake_put msg = do
  guint16_put msg.major
  guint16_put msg.minor
  guint32_put msg.head.channel
  guint32_put msg.srvrcalc_addr
  guint16_put msg.login_type
  guint32_put msg.loclcalc_addr
  put_if (sends_host msg.major msg.minor)
      do guint16_put msg.unknown_a; guint32_put msg.unknown_b; string_put msg.local_host

unfoldable pub handshake_get_host : Handshake → Get Handshake
handshake_get_host msg = do
  unknown_a ← guint16_get msg.unknown_a
  unknown_b ← guint32_get msg.unknown_b
  local_host ← string_get
  pure (record msg { unknown_a = unknown_a; unknown_b = unknown_b; local_host = local_host })

-- The channel is read a second time, into the head.
unfoldable pub handshake_get : Handshake → Get Handshake
handshake_get msg = unless_error msg do
  major ← guint16_get msg.major
  minor ← guint16_get msg.minor
  channel ← guint32_get msg.head.channel
  srvrcalc_addr ← guint32_get msg.srvrcalc_addr
  login_type ← guint16_get msg.login_type
  loclcalc_addr ← guint32_get msg.loclcalc_addr
  let msg' : Handshake = record msg {
    head = record (msg.head) { channel = channel };
    major = major;
    minor = minor;
    srvrcalc_addr = srvrcalc_addr;
    login_type = login_type;
    loclcalc_addr = loclcalc_addr;
  }
  branch (sends_host major minor) (handshake_get_host msg') (pure msg')

pub record HandshakeAck : Type 0 where
  pub head : MessageHead
  pub major : ℕ
  pub minor : ℕ
  pub srvrcalc_addr : ℕ
  pub magic : ℕ
  pub data_ : Opaque

abbrev pub handshake_ack_zero : MessageHead → HandshakeAck
handshake_ack_zero head = record {
  head = head;
  major = 0;
  minor = 0;
  srvrcalc_addr = 0;
  magic = 0;
  data_ = opaque_empty;
}

-- msg->major >= 0x1e && msg->minor > 0x18
abbrev pub sends_key : ℕ → ℕ → Bool
sends_key major minor = leb 0x1e major && ltb 0x18 minor

unfoldable pub handshake_ack_get_key : HandshakeAck → Get HandshakeAck
handshake_ack_get_key msg = do
  magic ← guint32_get msg.magic
  data_ ← opaque_get
  pure (record msg { magic = magic; data_ = data_ })

unfoldable pub handshake_ack_get : HandshakeAck → Get HandshakeAck
handshake_ack_get msg = unless_error msg do
  major ← guint16_get msg.major
  minor ← guint16_get msg.minor
  srvrcalc_addr ← guint32_get msg.srvrcalc_addr
  let msg' : HandshakeAck = record msg {
    major = major;
    minor = minor;
    srvrcalc_addr = srvrcalc_addr;
  }
  branch (sends_key major minor) (handshake_ack_get_key msg') (pure msg')

unfoldable pub handshake_ack_put : HandshakeAck → Put
handshake_ack_put msg = do
  guint16_put msg.major
  guint16_put msg.minor
  guint32_put msg.srvrcalc_addr
  put_if (sends_key msg.major msg.minor) do guint32_put msg.magic; opaque_put (some msg.data_)

unfoldable pub wire_handshake : Handshake → List ℕ
wire_handshake m =
    wire16 m.major
    ++ (wire16 m.minor
        ++ (wire32 m.head.channel
            ++ (wire32 m.srvrcalc_addr
                ++ (wire16 m.login_type
                    ++ (wire32 m.loclcalc_addr
                        ++ bytes_if (sends_host m.major m.minor) (
                            wire16 m.unknown_a
                            ++ (wire32 m.unknown_b ++ wire_str m.local_host)))))))

unfoldable pub wire_handshake_ack : HandshakeAck → List ℕ
wire_handshake_ack m =
    wire16 m.major
    ++ (wire16 m.minor
        ++ (wire32 m.srvrcalc_addr
            ++ bytes_if (sends_key m.major m.minor)
                (wire32 m.magic ++ wire_opaque (opaque_bytes m.data_))))

pub record IsHandshake (m : Handshake) : Type 0 where
  pub major_ok : IsWord16 m.major
  pub minor_ok : IsWord16 m.minor
  pub channel_ok : IsWord32 m.head.channel
  pub srvrcalc_addr_ok : IsWord32 m.srvrcalc_addr
  pub login_type_ok : IsWord16 m.login_type
  pub loclcalc_addr_ok : IsWord32 m.loclcalc_addr
  pub unknown_a_ok : IsWord16 m.unknown_a
  pub unknown_b_ok : IsWord32 m.unknown_b
  pub local_host_ok : IsStr m.local_host
  pub brief :
      sends_host m.major m.minor ≡ false
      → (m.unknown_a ≡ 0) × (m.unknown_b ≡ 0) × (m.local_host ≡ none)

pub record IsHandshakeAck (m : HandshakeAck) : Type 0 where
  pub major_ok : IsWord16 m.major
  pub minor_ok : IsWord16 m.minor
  pub srvrcalc_addr_ok : IsWord32 m.srvrcalc_addr
  pub magic_ok : IsWord32 m.magic
  pub data_ok : IsOpaque m.data_
  pub brief : sends_key m.major m.minor ≡ false → (m.magic ≡ 0) × (m.data_ ≡ opaque_empty)
