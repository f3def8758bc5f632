-- ===== src/Channel/Life/Receive.antt =====
-- What a channel of src/channel.c does when it is created from the other side, and when the other side
-- accepts or destroys it, with the calls of its service (src/service.c).
use meanwhile.Base.{true, not, ◌||◌, Option, none, some, List, [], ◌∷◌, ◌++◌, ◌==◌, if◌then◌else◌}
use meanwhile.Common.LoginInfo.{login_info_clone}
use meanwhile.Common.EncryptItem.{EncryptItem}
use meanwhile.Message.Channel.{ChannelCreate, ChannelAccept, ChannelDestroy}
use meanwhile.Cipher.Instance.{instance_offered, instance_accepted}
use meanwhile.Channel.{Channel, ch_open, created, accepted, destroyed, is_open}
use meanwhile.Channel.Life.Accept.{run_calls}
use meanwhile.Channel.Life.{
  Call, talk, end, Hooks, Context, is_outgoing, is_wait, put_supported, get_supported,
  select_instance, open_channel, end_state, destroy,
}

module _ {C : Type 0} where
  -- What each function of a service does, or what is done without it.
  abbrev pub create_calls :
      Option (ChannelCreate → Channel C → List (Call C)) → ChannelCreate → Channel C → List (Call C)
  create_calls none msg chan = talk (end 0x80000000 none) ∷ []
  create_calls (some f) msg chan = f msg chan

  abbrev pub accept_calls :
      Option (ChannelAccept → Channel C → List (Call C)) → ChannelAccept → Channel C → List (Call C)
  accept_calls none msg chan = []
  accept_calls (some f) msg chan = f msg chan

  abbrev pub destroy_calls :
      Option (ChannelDestroy → Channel C → List (Call C))
      → ChannelDestroy
      → Channel C
      → List (Call C)
  destroy_calls none msg chan = []
  destroy_calls (some f) msg chan = f msg chan

module _ {C : Type 0} (con : Context C) where
  -- The loop of mwChannel_recvCreate over the items that are offered.
  unfoldable pub take_offers : List EncryptItem → Channel C → Channel C
  take_offers [] chan = chan
  take_offers (item ∷ items) chan = elim (con.new_instance item.id) [
    | none ↦ take_offers items chan
    | some ci ↦ take_offers items (record chan {
      supported = put_supported con (instance_offered con.ops ci item) chan.supported;
    })
  ]

  -- mwService_recvCreate, mwService_recvAccept and mwService_recvDestroy of src/service.c
  abbrev pub service_recv_create : Hooks C → ChannelCreate → Channel C → Channel C
  service_recv_create srvc msg chan =
      let told = record chan { told = chan.told ++ (created msg ∷ []) } in
      run_calls con (create_calls srvc.on_recv_create msg told) told

  abbrev pub service_recv_accept : Hooks C → ChannelAccept → Channel C → Channel C
  service_recv_accept srvc msg chan =
      let told = record chan { told = chan.told ++ (accepted msg ∷ []) } in
      run_calls con (accept_calls srvc.on_recv_accept msg told) told

  abbrev pub service_recv_destroy : Hooks C → ChannelDestroy → Channel C → Channel C
  service_recv_destroy srvc msg chan =
      let told = record chan { told = chan.told ++ (destroyed msg ∷ []) } in
      run_calls con (destroy_calls srvc.on_recv_destroy msg told) told

  abbrev pub known_create : ChannelCreate → Channel C → Channel C
  known_create msg chan =
      let offered =
        take_offers msg.encrypt.items (record chan { offered_policy = msg.encrypt.mode }) in
      record offered {
        user = login_info_clone offered.user msg.creator;
        service = msg.service;
        proto_type = msg.proto_type;
        proto_ver = msg.proto_ver;
      }

  unfoldable pub recv_create : ChannelCreate → Channel C → Channel C
  recv_create msg chan =
      if chan.id == msg.channel
      then (if is_outgoing chan.id
          then destroy con 0x80000001 none chan
          else elim (con.service_at msg.service) [
            | none ↦ destroy con 0x8000000d none (known_create msg chan)
            | some srvc ↦ service_recv_create srvc msg (known_create msg chan)
          ])
      else chan

  -- The end of mwChannel_recvAccept: the service is told, and if it left the channel open the queues
  -- are flushed.
  unfoldable pub finish_accept : Hooks C → ChannelAccept → Channel C → Channel C
  finish_accept srvc msg chan =
      let done = service_recv_accept srvc msg (record chan { state = ch_open }) in
      if is_open done.state then open_channel con done else done

  -- Its part on the encryption, for the item of the message, which may destroy the channel.
  unfoldable pub accept_cipher :
      Hooks C → ChannelAccept → Option EncryptItem → Channel C → Channel C
  accept_cipher srvc msg none chan = finish_accept srvc msg (select_instance con none chan)
  accept_cipher srvc msg (some item) chan =
      if msg.encrypt.mode == 0
      then finish_accept srvc msg (select_instance con none chan)
      else elim (get_supported con chan item.id) [
        | none ↦ destroy con 0x80000001 none chan
        | some ci ↦
            finish_accept srvc msg (
              select_instance con (some (instance_accepted con.ops ci chan.user.login_id item))
                chan)
      ]

  unfoldable pub recv_accept : ChannelAccept → Channel C → Channel C
  recv_accept msg chan =
      if chan.id == msg.head.channel
      then (if not (is_outgoing chan.id) || not (is_wait chan.state)
          then destroy con 0x80000001 none chan
          else (let known = record chan { user = login_info_clone chan.user msg.acceptor } in
              elim (con.service_at chan.service) [
                | none ↦ destroy con 0x8000000d none known
                | some srvc ↦
                    accept_cipher srvc msg msg.encrypt.item
                      (record known { policy = msg.encrypt.mode })
              ]))
      else chan

  unfoldable pub recv_destroy : ChannelDestroy → Channel C → Channel C
  recv_destroy msg chan =
      if chan.id == msg.head.channel
      then (let ended = record chan { state = end_state con msg.reason } in
          let told : Channel C = elim (con.service_at chan.service) [
            | none ↦ ended
            | some srvc ↦ service_recv_destroy srvc msg ended
          ] in
          record told { gone = true })
      else chan
