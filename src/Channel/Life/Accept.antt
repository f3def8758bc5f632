-- ===== src/Channel/Life/Accept.antt =====
-- How a channel of src/channel.c is accepted, with the choice of a cipher, and the calls that a
-- service makes on a channel.
use meanwhile.Base.{not, ◌&&◌, Option, none, some, List, [], ◌∷◌, ◌==◌, if◌then◌else◌}
use meanwhile.Basic.{Str, opaque_clone}
use meanwhile.Common.EncryptItem.{EncryptItem}
use meanwhile.Message.Encrypt.{encrypt_accept_zero}
use meanwhile.Message.Channel.{ChannelAccept, channel_accept_zero}
use meanwhile.Message.Dispatch.{
  Message, Kind, code, k_channel_create, k_channel_accept, k_channel_destroy,
}
use meanwhile.Message.Dispatch
use meanwhile.Channel.{Channel, ch_error}
use meanwhile.Channel.Life.{
  talk, service_is, proto_type_is, proto_ver_is, options_are, create_it, accept_it, Call, Context,
  is_outgoing, is_wait, channel_head, write, supported_list, get_supported, select_instance,
  set_service, set_proto_type, set_proto_ver, set_options, create, talk_once, open_channel,
}

module _ {C : Type 0} (con : Context C) where
  -- The last in the list.
  abbrev pub last_of : List C → Option C
  last_of [] = none
  last_of (ci ∷ []) = some ci
  last_of (ci ∷ cj ∷ cis) = last_of (cj ∷ cis)

  -- The switch of mwChannel_accept on the offered policy.
  abbrev pub choose : Channel C → Option C
  choose chan =
      if chan.offered_policy == 0x0000
      then none
      else if chan.offered_policy == 0x1000
      then get_supported con chan 0x0000
      else if chan.offered_policy == 0x2000
      then get_supported con chan 0x0001
      else last_of (supported_list con chan.supported)

  unfoldable pub choose_cipher : Channel C → Channel C
  choose_cipher chan = elim (chan.cipher) [
    | some ci ↦ chan
    | none ↦ select_instance con (choose chan) chan
  ]

  -- if(chan->cipher) msg->encrypt.item = mwCipherInstance_accept(chan->cipher);
  abbrev pub accept_item : Option C → Str → Option C × Option EncryptItem
  accept_item none login_id = (none, none)
  accept_item (some ci) login_id = let out = con.ops.accept ci login_id in (some out.0, some out.1)

  abbrev pub accept_message : Channel C → Option EncryptItem → ChannelAccept
  accept_message chan item = record (channel_accept_zero (channel_head k_channel_accept chan.id)) {
    service = chan.service;
    proto_type = chan.proto_type;
    proto_ver = chan.proto_ver;
    addtl = opaque_clone (some chan.addtl_accept);
    encrypt = record encrypt_accept_zero {
      mode = chan.policy;
      item = item;
      extra = chan.offered_policy;
    };
  }

  unfoldable pub accept : Channel C → Channel C
  accept chan =
      if not (is_outgoing chan.id) && is_wait chan.state
      then (let chosen = choose_cipher chan in
          let item = accept_item chosen.cipher chosen.user.login_id in
          let out =
            write con (Dispatch.channel_accept (accept_message chosen item.1))
              (record chosen { cipher = item.0 }) in
          if out.1 == 0 then open_channel con out.0 else record (out.0) { state = ch_error })
      else chan

  abbrev pub call_once : Call C → Channel C → Channel C
  call_once (talk t) chan = talk_once con t chan
  call_once (service_is v) chan = set_service con v chan
  call_once (proto_type_is v) chan = set_proto_type con v chan
  call_once (proto_ver_is v) chan = set_proto_ver con v chan
  call_once (options_are v) chan = set_options con v chan
  call_once create_it chan = create con chan
  call_once accept_it chan = accept chan

  -- A service makes no further call on a channel that was freed.
  unfoldable pub run_calls : List (Call C) → Channel C → Channel C
  run_calls [] chan = chan
  run_calls (c ∷ cs) chan = if chan.gone then chan else run_calls cs (call_once c chan)
