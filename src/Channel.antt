-- ===== src/Channel.antt =====
-- What a channel of src/channel.c does with the messages that are sent on it and that it receives:
-- until it is open they are queued.
pub mod Laws
pub mod Life
pub mod Set
use meanwhile.Base.{
  ℕ, ◌+◌, ◌/◌, ◌%◌, ◌^◌, Bool, true, false, not, Option, none, some, List, [], ◌∷◌, ◌++◌, ◌==◌,
  if◌then◌else◌,
}
use meanwhile.Buffer.Opaque.{Opaque}
use meanwhile.Basic.{opaque_clone}
use meanwhile.Message.Head.{MessageHead, message_head_zero}
use meanwhile.Message.Channel.{ChannelSend, ChannelCreate, ChannelAccept, ChannelDestroy}
use meanwhile.Message.Dispatch
use meanwhile.Message.Dispatch.{Message}
use meanwhile.Common.LoginInfo.{LoginInfo}

pub data ChannelState : Type 0 where
  ch_new ch_init ch_wait ch_open ch_destroy ch_error ch_unknown : ChannelState

abbrev pub is_open : ChannelState → Bool
is_open ch_open = true
is_open _ = false

-- options & mwMessageOption_ENCRYPT, which is 0x4000
abbrev pub is_encrypted : ℕ → Bool
is_encrypted options = not (options / 2 ^ 14 % 2 == 0)

-- What a service is told of a channel.
pub data Told : Type 0 where
  created : ChannelCreate → Told
  accepted : ChannelAccept → Told
  received : ℕ → Opaque → Told
  destroyed : ChannelDestroy → Told

-- `C` is a cipher instance. `sent` are the messages given to mwSession_send for this channel so far,
-- and `told` what its service was told, each with the last one at the end. `supported` is the table
-- of instances, with one of each type, and `none` when it is NULL. A channel that is `gone` was taken
-- from its set and freed.
pub record Channel (C : Type 0) : Type 0 where
  pub state : ChannelState
  pub user : LoginInfo
  pub id : ℕ
  pub service : ℕ
  pub proto_type : ℕ
  pub proto_ver : ℕ
  pub options : ℕ
  pub addtl_create : Opaque
  pub addtl_accept : Opaque
  pub supported : Option (List C)
  pub offered_policy : ℕ
  pub policy : ℕ
  pub cipher : Option C
  pub outgoing_queue : List ChannelSend
  pub incoming_queue : List ChannelSend
  pub msg_recv : ℕ
  pub sent : List Message
  pub told : List Told
  pub gone : Bool

-- queue_incoming clones the message.
abbrev pub clone_send : ChannelSend → ChannelSend
clone_send msg = record {
  head = record (msg.head) { attribs = opaque_clone (some msg.head.attribs) };
  type_ = msg.type_;
  data_ = opaque_clone (some msg.data_);
}

module _ {C : Type 0} where
  unfoldable pub queue_outgoing : ChannelSend → Channel C → Channel C
  queue_outgoing msg chan = record chan { outgoing_queue = chan.outgoing_queue ++ (msg ∷ []) }

  unfoldable pub queue_incoming : ChannelSend → Channel C → Channel C
  queue_incoming msg chan = record chan {
    incoming_queue = chan.incoming_queue ++ (clone_send msg ∷ []);
  }

  -- The call of mwSession_send, whose result is not looked at.
  abbrev pub write_send : ChannelSend → Channel C → Channel C
  write_send msg chan = record chan { sent = chan.sent ++ (Dispatch.channel_send msg ∷ []) }

  unfoldable pub channel_send : ChannelSend → Channel C → Channel C
  channel_send msg chan =
      if is_open chan.state then write_send msg chan else queue_outgoing msg chan

  -- The second loop of flush_channel.
  unfoldable pub write_all : List ChannelSend → Channel C → Channel C
  write_all [] chan = chan
  write_all (msg ∷ msgs) chan = write_all msgs (write_send msg chan)

  -- mwChannel_selectCipherInstance, as far as it sets the cipher.
  abbrev pub select_cipher : Option C → Channel C → Channel C
  select_cipher ci chan = record chan { cipher = ci }

-- `encrypt` and `decrypt` are those of the cipher instance.
module _ {C : Type 0} (encrypt : C → Opaque → C × Opaque) where
  -- The instance that is left, and the message that goes out.
  abbrev pub encrypted : Option C → ChannelSend → Option C × ChannelSend
  encrypted none msg = (none, msg)
  encrypted (some ci) msg =
      let out = encrypt ci msg.data_ in
      (some out.0, record msg { head = record (msg.head) { options = 0x4000 }; data_ = out.1 })

  unfoldable pub send_encrypted : ℕ → Opaque → Bool → Channel C → Channel C
  send_encrypted type_ data_ encrypt_ chan =
      let msg : ChannelSend = record {
        head = record message_head_zero { type_ = 0x0004; channel = chan.id };
        type_ = type_;
        data_ = opaque_clone (some data_);
      } in
      let out = encrypted chan.cipher msg in
      if encrypt_
      then channel_send out.1 (record chan { cipher = out.0 })
      else channel_send msg chan

module _ {C : Type 0} (decrypt : C → Opaque → C × Opaque) where
  abbrev pub decrypted : Option C → Opaque → Option C × Opaque
  decrypted none data_ = (none, data_)
  decrypted (some ci) data_ = let out = decrypt ci data_ in (some out.0, out.1)

-- `recv` is the call of mwService_recv, on the channel's service.
module _ {C : Type 0} (decrypt : C → Opaque → C × Opaque)
    (recv : ℕ → Opaque → Channel C → Channel C) where
  -- The service is given the type as a guint16.
  unfoldable pub channel_recv : ChannelSend → Channel C → Channel C
  channel_recv msg chan =
      let counted = record chan { msg_recv = chan.msg_recv + 1 } in
      let out = decrypted decrypt chan.cipher (opaque_clone (some msg.data_)) in
      if is_encrypted msg.head.options
      then recv (msg.type_ % 2 ^ 16) out.1 (record counted { cipher = out.0 })
      else recv (msg.type_ % 2 ^ 16) msg.data_ counted

  -- The first loop of flush_channel.
  unfoldable pub recv_queued : List ChannelSend → Channel C → Channel C
  recv_queued [] chan = chan
  recv_queued (msg ∷ msgs) chan = recv_queued msgs (channel_recv msg chan)

  -- The queue is emptied when the service was given all of it.
  unfoldable pub flush_channel : Channel C → Channel C
  flush_channel chan =
      let received = record (recv_queued chan.incoming_queue chan) { incoming_queue = [] } in
      record (write_all received.outgoing_queue received) { outgoing_queue = [] }

  unfoldable pub channel_open : Channel C → Channel C
  channel_open chan = flush_channel (record chan { state = ch_open })

  -- mwChannel_recv
  unfoldable pub recv_send : ChannelSend → Channel C → Channel C
  recv_send msg chan = if is_open chan.state then channel_recv msg chan else queue_incoming msg chan
