-- ===== src/Message/Handshake/Laws.antt =====
-- Writing and reading the two handshake messages.
use meanwhile.Base.{ℕ, arith, none, ◌++◌}
use meanwhile.Buffer.Opaque.{opaque_empty, opaque_bytes}
use meanwhile.Buffer.Put.Laws.{Writes, Writes->>, put_if-Writes, bytes_if}
use meanwhile.Buffer.Get.{branch, pure}
use meanwhile.Buffer.Get.Laws.{Reads, Reads->>=, Reads-end, pure-Reads, unless_error-Reads}
use meanwhile.Buffer.Get.Safe.{IsReader}
use meanwhile.Basic.Writes.{guint16_put-Writes, guint32_put-Writes, opaque_put-Writes}
use meanwhile.Basic.Reads.{guint16_get-Reads, guint32_get-Reads, string_get-Reads, opaque_get-Reads}
use meanwhile.Basic.Wire.{wire16, wire32, wire_str, wire_opaque}
use meanwhile.Common.Rules.{writers, safe_readers, branch-Reads, pure_eq-Reads}
use meanwhile.Message.Handshake.{
  Handshake, handshake_zero, sends_host, handshake_put, handshake_get_host, handshake_get,
  HandshakeAck, handshake_ack_zero, sends_key, handshake_ack_get_key, handshake_ack_get,
  handshake_ack_put, wire_handshake, wire_handshake_ack, IsHandshake, IsHandshakeAck,
}

pub handshake_put-Writes : (m : Handshake) → Writes (handshake_put m) (wire_handshake m)
unfolding handshake_put wire_handshake
handshake_put-Writes m = search writers depth 14

pub handshake_get-IsReader : (old : Handshake) → IsReader (handshake_get old)
unfolding handshake_get handshake_get_host
handshake_get-IsReader old = search safe_readers depth 14

abbrev hostless : Handshake → Handshake
hostless m = record m { unknown_a = 0; unknown_b = 0; local_host = none }

handshake_rest :
    (m : Handshake)
    → IsHandshake m
    → Reads
        (branch (sends_host m.major m.minor) (handshake_get_host (hostless m)) (pure (hostless m)))
        (bytes_if
          (sends_host m.major m.minor)
          (wire16 m.unknown_a ++ (wire32 m.unknown_b ++ wire_str m.local_host)))
        m
unfolding handshake_get_host
handshake_rest m h =
    branch-Reads (sends_host m.major m.minor)
      (λ e. Reads->>= _ (guint16_get-Reads _ _ h.unknown_a_ok) (
        Reads->>= _ (guint32_get-Reads _ _ h.unknown_b_ok)
          (Reads-end _ (string_get-Reads _ h.local_host_ok) (pure-Reads _))))
      (λ e. pure_eq-Reads (ground (arith, h.brief e)))

-- Read into a new message with any channel in its head.
pub handshake_get-Reads :
    (c : ℕ) (m : Handshake)
    → IsHandshake m
    → Reads (handshake_get (handshake_zero (record (m.head) { channel = c }))) (wire_handshake m) m
unfolding handshake_get wire_handshake
handshake_get-Reads c m h = unless_error-Reads _ (
    Reads->>= _ (guint16_get-Reads _ _ h.major_ok) (
      Reads->>= _ (guint16_get-Reads _ _ h.minor_ok) (
        Reads->>= _ (guint32_get-Reads _ _ h.channel_ok) (
          Reads->>= _ (guint32_get-Reads _ _ h.srvrcalc_addr_ok) (
            Reads->>= _ (guint16_get-Reads _ _ h.login_type_ok)
              (Reads->>= _ (guint32_get-Reads _ _ h.loclcalc_addr_ok) (handshake_rest m h)))))))

pub handshake_ack_put-Writes :
    (m : HandshakeAck) → IsHandshakeAck m → Writes (handshake_ack_put m) (wire_handshake_ack m)
unfolding handshake_ack_put wire_handshake_ack
handshake_ack_put-Writes m h = Writes->> (guint16_put-Writes m.major) (
    Writes->> (guint16_put-Writes m.minor) (
      Writes->> (guint32_put-Writes m.srvrcalc_addr) (
        put_if-Writes (sends_key m.major m.minor)
          (Writes->> (guint32_put-Writes m.magic) (opaque_put-Writes m.data_ h.data_ok)))))

pub handshake_ack_get-IsReader : (old : HandshakeAck) → IsReader (handshake_ack_get old)
unfolding handshake_ack_get handshake_ack_get_key
handshake_ack_get-IsReader old = search safe_readers depth 12

abbrev keyless : HandshakeAck → HandshakeAck
keyless m = record m { magic = 0; data_ = opaque_empty }

handshake_ack_rest :
    (m : HandshakeAck)
    → IsHandshakeAck m
    → Reads
        (branch (sends_key m.major m.minor) (handshake_ack_get_key (keyless m)) (pure (keyless m)))
        (bytes_if
          (sends_key m.major m.minor)
          (wire32 m.magic ++ wire_opaque (opaque_bytes m.data_)))
        m
unfolding handshake_ack_get_key
handshake_ack_rest m h =
    branch-Reads (sends_key m.major m.minor)
      (λ e.
        Reads->>= _ (guint32_get-Reads _ _ h.magic_ok)
          (Reads-end _ (opaque_get-Reads _ h.data_ok) (pure-Reads _)))
      (λ e. pure_eq-Reads (ground (arith, h.brief e)))

pub handshake_ack_get-Reads :
    (m : HandshakeAck)
    → IsHandshakeAck m
    → Reads (handshake_ack_get (handshake_ack_zero m.head)) (wire_handshake_ack m) m
unfolding handshake_ack_get wire_handshake_ack
handshake_ack_get-Reads m h = unless_error-Reads _ (
    Reads->>= _ (guint16_get-Reads _ _ h.major_ok) (
      Reads->>= _ (guint16_get-Reads _ _ h.minor_ok)
        (Reads->>= _ (guint32_get-Reads _ _ h.srvrcalc_addr_ok) (handshake_ack_rest m h))))
