-- ===== src/Channel/Life.antt =====
-- The life of a channel of src/channel.c: how it is created and destroyed, the selection of a cipher,
-- and what a service that is given a message does with it.
pub mod Accept
pub mod Receive
pub mod Protocol
use meanwhile.Base.{
  ℕ, ◌+◌, ◌<◌, ◌/◌, ◌%◌, ◌^◌, Bool, true, false, not, ◌||◌, ◌&&◌, Option, none, some, List, [], ◌∷◌,
  ◌++◌, map, ltb, ◌==◌, if◌then◌else◌,
}
use meanwhile.Buffer.Opaque.{Opaque, opaque_empty}
use meanwhile.Basic.{Str, opaque_clone}
use meanwhile.Common.LoginInfo.{LoginInfo, login_info_zero, login_info_clone}
use meanwhile.Common.EncryptItem.{EncryptItem}
use meanwhile.Common.Rules.{strdup}
use meanwhile.Message.Head.{MessageHead, message_head_zero}
use meanwhile.Message.Encrypt.{EncryptOffer, EncryptAccept, encrypt_offer_zero, encrypt_accept_zero}
use meanwhile.Message.Channel.{
  ChannelCreate, ChannelAccept, ChannelDestroy, channel_create_zero, channel_accept_zero,
  channel_destroy_zero,
}
use meanwhile.Message.Dispatch.{
  Message, Kind, code, k_channel_create, k_channel_accept, k_channel_destroy,
}
use meanwhile.Message.Dispatch
use meanwhile.Cipher.Instance.{
  CipherOps, instance_offered, instance_accepted, instance_encrypt, instance_decrypt,
}
use meanwhile.Channel.{
  Channel, ChannelState, ch_new, ch_init, ch_wait, ch_open, ch_destroy, ch_error, Told, created,
  accepted, destroyed, is_open, received, send_encrypted, channel_open,
}

-- What a service does with a channel that is open: it sends a message on it, selects an instance of
-- a cipher, adds instances, or destroys it.
pub data Talk (C : Type 0) : Type 0 where
  say : ℕ → Opaque → Bool → Talk C
  pick : Option C → Talk C
  offer : List C → Talk C
  end : ℕ → Option Opaque → Talk C

-- What it does with any channel: also the settings before one is created, its creation and its
-- acceptance, which do nothing to an open one.
pub data Call (C : Type 0) : Type 0 where
  talk : Talk C → Call C
  service_is proto_type_is proto_ver_is options_are : ℕ → Call C
  create_it accept_it : Call C

-- The functions of a service that a channel calls, each `none` where the pointer is NULL: the calls
-- that they make on the channel, one after the other, decided from what they are given.
pub record Hooks (C : Type 0) : Type 0 where
  pub on_recv : Option (ℕ → Opaque → Channel C → List (Talk C))
  pub on_recv_create : Option (ChannelCreate → Channel C → List (Call C))
  pub on_recv_accept : Option (ChannelAccept → Channel C → List (Call C))
  pub on_recv_destroy : Option (ChannelDestroy → Channel C → List (Call C))

abbrev pub recv_calls :
    {C : Type 0}
    → Option (ℕ → Opaque → Channel C → List (Talk C))
    → ℕ
    → Opaque
    → Channel C
    → List (Talk C)
recv_calls none type_ data_ chan = []
recv_calls (some f) type_ data_ chan = f type_ data_ chan

-- What a channel has of its session: the ciphers, by their id, with a new instance of each; the
-- services, by their type; what mwSession_send returns for a message after those of the channel so
-- far; and the order in which a table of instances is walked.
pub record Context (C : Type 0) : Type 0 where
  pub ops : CipherOps C
  pub new_instance : ℕ → Option C
  pub service_at : ℕ → Option (Hooks C)
  pub send_result : List Message → Message → ℕ
  pub arrange : List C → List C

-- mwChannel_idIsOutgoing: ! (0x80000000 & id)
abbrev pub is_outgoing : ℕ → Bool
is_outgoing id = id / 2 ^ 31 % 2 == 0

-- mwChannel_newIncoming, before the channel is put into its set.
abbrev pub new_channel : {C : Type 0} → ℕ → Channel C
new_channel id = record {
  state = ch_wait;
  user = login_info_zero;
  id = id;
  service = 0;
  proto_type = 0;
  proto_ver = 0;
  options = 0;
  addtl_create = opaque_empty;
  addtl_accept = opaque_empty;
  supported = some [];
  offered_policy = 0;
  policy = 0;
  cipher = none;
  outgoing_queue = [];
  incoming_queue = [];
  msg_recv = 0;
  sent = [];
  told = [];
  gone = false;
}

-- mwMessage_new for a channel's message
abbrev pub channel_head : Kind → ℕ → MessageHead
channel_head k id = record message_head_zero { type_ = code k; channel = id }

abbrev pub is_init : ChannelState → Bool
is_init ch_init = true
is_init _ = false

abbrev pub is_wait : ChannelState → Bool
is_wait ch_wait = true
is_wait _ = false

module _ {C : Type 0} (con : Context C) where
  -- The call of mwSession_send and its result.
  abbrev pub write : Message → Channel C → Channel C × ℕ
  write msg chan = (record chan { sent = chan.sent ++ (msg ∷ []) }, con.send_result chan.sent msg)

  -- The table of instances: g_hash_table_insert, g_hash_table_lookup and g_hash_table_steal.
  abbrev pub without_type : ℕ → List C → List C
  without_type type_ [] = []
  without_type type_ (ci ∷ cis) =
      let rest = without_type type_ cis in if con.ops.type_of ci == type_ then rest else ci ∷ rest

  abbrev pub put_supported : C → Option (List C) → Option (List C)
  put_supported ci none = none
  put_supported ci (some cis) = some (without_type (con.ops.type_of ci) cis ++ (ci ∷ []))

  abbrev pub find_type : ℕ → List C → Option C
  find_type type_ [] = none
  find_type type_ (ci ∷ cis) =
      let rest = find_type type_ cis in if con.ops.type_of ci == type_ then some ci else rest

  abbrev pub get_supported : Channel C → ℕ → Option C
  get_supported chan type_ = elim (chan.supported) [ none ↦ none | some cis ↦ find_type type_ cis ]

  -- mwChannel_getSupportedCipherInstances
  abbrev pub supported_list : Option (List C) → List C
  supported_list none = []
  supported_list (some cis) = con.arrange cis

  -- The policy for a cipher that is selected.
  abbrev pub policy_of : Option C → ℕ
  policy_of none = 0x0000
  policy_of (some ci) =
      if con.ops.type_of ci == 0x0000
      then 0x1000
      else if con.ops.type_of ci == 0x0001
      then 0x2000
      else 0x0001

  -- mwChannel_selectCipherInstance, which does nothing when the table is NULL.
  unfoldable pub select_instance : Option C → Channel C → Channel C
  select_instance ci chan = elim (chan.supported) [
    | none ↦ chan
    | some cis ↦ record chan { cipher = ci; policy = policy_of ci; supported = none }
  ]

  -- mwChannel_populateSupportedCipherInstances, for new instances of the session's ciphers.
  unfoldable pub populate : List C → Channel C → Channel C
  populate [] chan = chan
  populate (ci ∷ cis) chan =
      populate cis (record chan { supported = put_supported ci chan.supported })

  -- mwChannel_setService, with the type of the service, mwChannel_setProtoType, mwChannel_setProtoVer
  -- and mwChannel_setOptions
  abbrev pub set_service : ℕ → Channel C → Channel C
  set_service v chan = if is_init chan.state then record chan { service = v } else chan

  abbrev pub set_proto_type : ℕ → Channel C → Channel C
  set_proto_type v chan = if is_init chan.state then record chan { proto_type = v } else chan

  abbrev pub set_proto_ver : ℕ → Channel C → Channel C
  set_proto_ver v chan = if is_init chan.state then record chan { proto_ver = v } else chan

  abbrev pub set_options : ℕ → Channel C → Channel C
  set_options v chan = if is_init chan.state then record chan { options = v } else chan

  -- The CHANNEL_CREATE message of mwChannel_create.
  abbrev pub offer_policy : List C → ℕ
  offer_policy [] = 0x0000
  offer_policy (ci ∷ cis) = 0x0001

  abbrev pub create_message : Channel C → ChannelCreate
  create_message chan =
      let cis = supported_list chan.supported in
      record (channel_create_zero (record message_head_zero { type_ = code k_channel_create })) {
        channel = chan.id;
        target = record { user = strdup chan.user.user_id; community = strdup chan.user.community };
        service = chan.service;
        proto_type = chan.proto_type;
        proto_ver = chan.proto_ver;
        options = chan.options;
        addtl = opaque_clone (some chan.addtl_create);
        encrypt = record encrypt_offer_zero {
          mode = offer_policy cis;
          items = map con.ops.offer cis;
          extra = offer_policy cis;
        };
      }

  unfoldable pub create : Channel C → Channel C
  create chan =
      if is_init chan.state && is_outgoing chan.id
      then (let offered = record chan {
        offered_policy = offer_policy (supported_list chan.supported);
      } in
          let out = write (Dispatch.channel_create (create_message chan)) offered in
          if out.1 == 0
          then record (out.0) { state = ch_wait }
          else record (out.0) { state = ch_error })
      else chan

  abbrev pub end_state : ℕ → ChannelState
  end_state reason = if reason == 0 then ch_destroy else ch_error

  abbrev pub destroy_message : Channel C → ℕ → Option Opaque → ChannelDestroy
  destroy_message chan reason info =
      record (channel_destroy_zero (channel_head k_channel_destroy chan.id)) {
        reason = reason;
        data_ = opaque_clone info;
      }

  -- mwChannel_destroy: the channel is taken from its set and freed before the message is sent.
  unfoldable pub destroy : ℕ → Option Opaque → Channel C → Channel C
  destroy reason info chan =
      let ended = record chan { state = end_state reason; gone = true } in
      (write (Dispatch.channel_destroy (destroy_message chan reason info)) ended).0

  abbrev pub talk_once : Talk C → Channel C → Channel C
  talk_once (say type_ data_ encrypt_) chan =
      send_encrypted (instance_encrypt con.ops) type_ data_ encrypt_ chan
  talk_once (pick ci) chan = select_instance ci chan
  talk_once (offer cis) chan = populate cis chan
  talk_once (end reason info) chan = destroy reason info chan

  -- A service makes no further call on a channel that was freed.
  unfoldable pub run_talk : List (Talk C) → Channel C → Channel C
  run_talk [] chan = chan
  run_talk (t ∷ ts) chan = if chan.gone then chan else run_talk ts (talk_once t chan)

  abbrev pub given : Option (Hooks C) → ℕ → Opaque → Channel C → Channel C
  given none type_ data_ chan = chan
  given (some srvc) type_ data_ chan =
      let told = record chan { told = chan.told ++ (received type_ data_ ∷ []) } in
      run_talk (recv_calls srvc.on_recv type_ data_ told) told

  -- mwService_recv of src/service.c, for the service of the channel, which may be NULL.
  unfoldable pub service_recv : ℕ → Opaque → Channel C → Channel C
  service_recv type_ data_ chan = given (con.service_at chan.service) type_ data_ chan

  abbrev pub open_channel : Channel C → Channel C
  open_channel = channel_open (instance_decrypt con.ops) service_recv
