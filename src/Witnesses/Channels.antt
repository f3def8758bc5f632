-- ===== src/Witnesses/Channels.antt =====
-- A channel on which messages are sent before and after it opens.
use meanwhile.Base.{ℕ, ◌≡◌, refl, true, some, List, [], ◌∷◌, ◌++◌}
use meanwhile.Buffer.Opaque.{opaque_of}
use meanwhile.Basic.{opaque_clone}
use meanwhile.Message.Head.{message_head_zero}
use meanwhile.Message.Channel.{ChannelSend}
use meanwhile.Cipher.Rc2128.{InstanceRc2128, new_instance_rc2_128, encrypt_rc2_128, decrypt_rc2_128}
use meanwhile.Message.Dispatch
use meanwhile.Channel.Life.{new_channel}
use meanwhile.Channel.{Channel, send_encrypted, channel_open, select_cipher}
use meanwhile.Channel.{Told}
use meanwhile.Channel.Laws.{replies, answers, early_in_clear}
use meanwhile.Channel.Laws.Order.{
  Action, post, arrive, select, open_, act_all, InOrder, channel_order,
}

abbrev waiting : Channel InstanceRc2128
waiting = new_channel 5

abbrev words : List ℕ → ChannelSend
words bytes = record {
  head = record message_head_zero { type_ = 4; channel = 5 };
  type_ = 100;
  data_ = opaque_of bytes;
}

abbrev talk : List (Action InstanceRc2128)
talk =
    post (words (1 ∷ []))
    ∷ arrive (words (7 ∷ []))
    ∷ post (words (2 ∷ []))
    ∷ select (some new_instance_rc2_128)
    ∷ open_ (words (8 ∷ []) ∷ [])
    ∷ post (words (3 ∷ []))
    ∷ []

-- A service that answers the first message that it is given.
abbrev polite : List Told → List ChannelSend
polite (n ∷ []) = words (9 ∷ []) ∷ []
polite _ = []

channel_order_example : InOrder polite talk waiting (act_all decrypt_rc2_128 polite talk waiting)
channel_order_example = channel_order decrypt_rc2_128 polite talk waiting (λ o. refl)

early_in_clear_example :
    let early = send_encrypted encrypt_rc2_128 100 (opaque_of (1 ∷ [])) true waiting in
    let done =
      channel_open decrypt_rc2_128
        (answers polite)
        (select_cipher (some new_instance_rc2_128) early) in
    (news : List Told) × ((done.told ≡ waiting.told ++ news)
      × (done.sent
          ≡ (waiting.sent ++ replies polite waiting.told news)
            ++ (Dispatch.channel_send (record {
              head = record message_head_zero { type_ = 0x0004; channel = 5 };
              type_ = 100;
              data_ = opaque_clone (some (opaque_of (1 ∷ [])));
            })
                ∷ [])))
early_in_clear_example =
    early_in_clear decrypt_rc2_128 polite encrypt_rc2_128 waiting 100 (opaque_of (1 ∷ []))
      new_instance_rc2_128 refl refl refl
