-- ===== src/Channel/Life/Protocol/Keeps.antt =====
-- The parts of what a channel does, and the protocol of a channel.
use meanwhile.Base.{
  ℕ, ◌≡◌, refl, arith, Bool, true, false, Option, none, some, List, [], ◌∷◌, Bool-cases,
  Option-cases, inl, inr,
}
use meanwhile.Buffer.Opaque.{Opaque}
use meanwhile.Common.EncryptItem.{EncryptItem}
use meanwhile.Message.Channel.{ChannelSend}
use meanwhile.Message.Dispatch
use meanwhile.Cipher.Instance.{instance_offered}
use meanwhile.Channel.{
  Channel, is_open, channel_send, queue_outgoing, write_send, write_all, send_encrypted,
}
use meanwhile.Channel.Life.{
  Context, is_outgoing, select_instance, populate, put_supported, destroy, destroy_message,
}
use meanwhile.Channel.Life.Accept.{choose, choose_cipher}
use meanwhile.Channel.Life.Receive.{take_offers}
use meanwhile.Channel.Life.Protocol.{
  ended, fits-send, fits-destroy, stage_of, IsProper, Same, Same-trans, Same-IsProper,
  wrote-IsProper,
}

pub Same-refl : {C : Type 0} (chan : Channel C) → Same chan chan
Same-refl chan = (refl, refl, refl, refl)

pub write_send-IsProper :
    {C : Type 0} (msg : ChannelSend) (chan : Channel C)
    → is_open chan.state ≡ true
    → chan.gone ≡ false
    → IsProper chan
    → IsProper (write_send msg chan)
write_send-IsProper msg chan o g h =
    let alive = h.alive g in
    wrote-IsProper (Dispatch.channel_send msg) chan (write_send msg chan) (stage_of chan) refl refl
      (fits-send (is_outgoing chan.id) chan.state (stage_of chan) msg o alive) h.legal (λ _. alive)

pub write_all-IsProper :
    {C : Type 0} (msgs : List ChannelSend) (chan : Channel C)
    → is_open chan.state ≡ true
    → chan.gone ≡ false
    → IsProper chan
    → IsProper (write_all msgs chan)
unfolding write_all
write_all-IsProper [] chan o g h = h
write_all-IsProper (msg ∷ msgs) chan o g h =
    write_all-IsProper msgs (write_send msg chan) o g (write_send-IsProper msg chan o g h)

pub channel_send-IsProper :
    {C : Type 0} (msg : ChannelSend) (chan : Channel C)
    → chan.gone ≡ false
    → IsProper chan
    → IsProper (channel_send msg chan)
unfolding channel_send queue_outgoing
channel_send-IsProper msg chan g h = elim (Bool-cases (is_open chan.state)) [
  | inl e ↦ rw e (write_send-IsProper msg chan e g h)
  | inr e ↦ rw e (Same-IsProper chan (queue_outgoing msg chan) (refl, refl, refl, refl) h)
]

module _ {C : Type 0} (encrypt : C → Opaque → C × Opaque) where
  pub send_encrypted-IsProper :
      (type_ : ℕ) (data_ : Opaque) (encrypt_ : Bool) (chan : Channel C)
      → chan.gone ≡ false
      → IsProper chan
      → IsProper (send_encrypted encrypt type_ data_ encrypt_ chan)
  unfolding send_encrypted
  send_encrypted-IsProper type_ data_ true chan g h =
      channel_send-IsProper _ _ g (Same-IsProper chan _ (refl, refl, refl, refl) h)
  send_encrypted-IsProper type_ data_ false chan g h = channel_send-IsProper _ chan g h

pub write_all-gone :
    {C : Type 0} (msgs : List ChannelSend) (chan : Channel C)
    → (write_all msgs chan).gone ≡ chan.gone
unfolding write_all
write_all-gone [] chan = refl
write_all-gone (msg ∷ msgs) chan = write_all-gone msgs (write_send msg chan)

module _ {C : Type 0} (con : Context C) where
  pub select_instance-Same :
      (ci : Option C) (chan : Channel C) → Same chan (select_instance con ci chan)
  unfolding select_instance
  select_instance-Same ci chan = elim (Option-cases chan.supported) [
    | inl e ↦ rw e (refl, refl, refl, refl)
    | inr (cis, e) ↦ rw e (refl, refl, refl, refl)
  ]

  pub choose_cipher-Same : (chan : Channel C) → Same chan (choose_cipher con chan)
  unfolding choose_cipher
  choose_cipher-Same chan =
      elim (chan.cipher)
        as (λ o.
          Same chan
            (elim o [ some ci ↦ chan | none ↦ select_instance con (choose con chan) chan ])) [
              | none ↦ select_instance-Same (choose con chan) chan
              | some ci ↦ Same-refl chan
            ]

  pub populate-Same : (cis : List C) (chan : Channel C) → Same chan (populate con cis chan)
  unfolding populate
  populate-Same [] chan = Same-refl chan
  populate-Same (ci ∷ cis) chan =
      let put = record chan { supported = put_supported con ci chan.supported } in
      Same-trans chan put (populate con cis put) (refl, refl, refl, refl) (populate-Same cis put)

  pub take_offers-Same :
      (items : List EncryptItem) (chan : Channel C) → Same chan (take_offers con items chan)
  unfolding take_offers
  take_offers-Same [] chan = Same-refl chan
  take_offers-Same (item ∷ items) chan = elim (Option-cases (con.new_instance item.id)) [
    | inl e ↦ rw (take_offers, e) (take_offers-Same items chan)
    | inr (ci, e) ↦
        let put = record chan {
          supported = put_supported con (instance_offered con.ops ci item) chan.supported;
        } in
        rw (take_offers, e)
          (Same-trans chan put (take_offers con items put) (refl, refl, refl, refl)
            (take_offers-Same items put))
  ]

  pub destroy-IsProper :
      (reason : ℕ) (info : Option Opaque) (chan : Channel C)
      → chan.gone ≡ false
      → IsProper chan
      → IsProper (destroy con reason info chan) × ((destroy con reason info chan).gone ≡ true)
  unfolding destroy
  destroy-IsProper reason info chan g h =
      let (now, _, _) =
        fits-destroy (is_outgoing chan.id) chan.state (stage_of chan)
          (destroy_message con chan reason info) (h.alive g) in
      (
        wrote-IsProper (Dispatch.channel_destroy (destroy_message con chan reason info)) chan
            (destroy con reason info chan) ended refl refl now refl
            (λ e. absurd (ground (arith, e))),
        refl,
      )
