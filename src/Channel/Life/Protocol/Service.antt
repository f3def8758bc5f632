-- ===== src/Channel/Life/Protocol/Service.antt =====
-- What a service does when it is given a message keeps the protocol of its channel.
use meanwhile.Base.{
  ℕ, ◌+◌, ◌%◌, ◌^◌, ◌≡◌, refl, sym, ap, ◌∙◌, arith, Bool, true, false, Option, some, List, [], ◌∷◌,
  ◌++◌, ◌⊎◌, if◌then◌else◌, Bool-cases, Option-cases, inl, inr,
}
use mathlib.Core.Path.{subst}
use meanwhile.Buffer.Opaque.{Opaque}
use meanwhile.Basic.{opaque_clone}
use meanwhile.Message.Channel.{ChannelSend}
use meanwhile.Cipher.Instance.{instance_encrypt, instance_decrypt}
use meanwhile.Channel.{
  Channel, ch_open, is_open, is_encrypted, received, channel_send, queue_outgoing, queue_incoming,
  write_all, send_encrypted, decrypted, channel_recv, recv_queued, flush_channel, channel_open,
  recv_send,
}
use meanwhile.Channel.Life.{
  Talk, say, pick, offer, end, Hooks, recv_calls, Context, put_supported, select_instance, populate,
  destroy, end_state, talk_once, run_talk, service_recv, open_channel,
}
use meanwhile.Channel.Life.Protocol.{IsProper, Same-IsProper, ends, has_waiting, IsPatient}
use meanwhile.Channel.Life.Protocol.Keeps.{
  write_all-IsProper, write_all-gone, send_encrypted-IsProper, select_instance-Same, populate-Same,
  destroy-IsProper,
}

-- A channel keeps the protocol, and is not open if it was freed.
abbrev pub Kept : {C : Type 0} → Channel C → Type 0
Kept done = IsProper done × (done.gone ≡ true → is_open done.state ≡ false)

-- It is freed as little as before, in the same state, with the same messages waiting.
abbrev Still : {C : Type 0} → Channel C → Channel C → Type 0
Still chan done =
    (done.gone ≡ chan.gone)
    × (done.state ≡ chan.state)
    × (done.incoming_queue ≡ chan.incoming_queue)

Still-trans : {C : Type 0} (a b c : Channel C) → Still a b → Still b c → Still a c
Still-trans a b c p q = (q.0 ∙ p.0, q.1 ∙ p.1, q.2 ∙ p.2)

pub Kept-alive : {C : Type 0} (chan : Channel C) → chan.gone ≡ false → IsProper chan → Kept chan
Kept-alive chan g h = (h, λ l. absurd (ground (arith, g, l)))

channel_send-Still :
    {C : Type 0} (msg : ChannelSend) (chan : Channel C) → Still chan (channel_send msg chan)
unfolding channel_send queue_outgoing
channel_send-Still msg chan = elim (Bool-cases (is_open chan.state)) [
  | inl e ↦ rw e (refl, refl, refl)
  | inr e ↦ rw e (refl, refl, refl)
]

waiting-cases : (msgs : List ChannelSend) → (msgs ≡ []) ⊎ (has_waiting msgs ≡ true)
waiting-cases [] = inl refl
waiting-cases (msg ∷ msgs) = inr refl

module _ {C : Type 0} (con : Context C) where
  send_encrypted-Still :
      (type_ : ℕ) (data_ : Opaque) (encrypt_ : Bool) (chan : Channel C)
      → Still chan (send_encrypted (instance_encrypt con.ops) type_ data_ encrypt_ chan)
  unfolding send_encrypted
  send_encrypted-Still type_ data_ true chan = channel_send-Still _ _
  send_encrypted-Still type_ data_ false chan = channel_send-Still _ chan

  populate-Still : (cis : List C) (chan : Channel C) → Still chan (populate con cis chan)
  unfolding populate
  populate-Still [] chan = (refl, refl, refl)
  populate-Still (ci ∷ cis) chan =
      let put = record chan { supported = put_supported con ci chan.supported } in
      populate-Still cis put

  select_instance-Still :
      (ci : Option C) (chan : Channel C) → Still chan (select_instance con ci chan)
  unfolding select_instance
  select_instance-Still ci chan = elim (Option-cases chan.supported) [
    | inl e ↦ rw e (refl, refl, refl)
    | inr (cis, e) ↦ rw e (refl, refl, refl)
  ]

  end_state-shut : (reason : ℕ) → is_open (end_state con reason) ≡ false
  end_state-shut reason = ground arith

  pub destroy-Kept :
      (reason : ℕ) (info : Option Opaque) (chan : Channel C)
      → chan.gone ≡ false
      → IsProper chan
      → Kept (destroy con reason info chan)
  unfolding destroy
  destroy-Kept reason info chan g h =
      ((destroy-IsProper con reason info chan g h).0, λ _. end_state-shut reason)

  pub talk_once-Kept :
      (t : Talk C) (chan : Channel C)
      → chan.gone ≡ false
      → IsProper chan
      → Kept (talk_once con t chan)
  talk_once-Kept (say type_ data_ encrypt_) chan g h =
      Kept-alive _ ((send_encrypted-Still type_ data_ encrypt_ chan).0 ∙ g)
        (send_encrypted-IsProper (instance_encrypt con.ops) type_ data_ encrypt_ chan g h)
  talk_once-Kept (pick ci) chan g h =
      Kept-alive _ ((select_instance-Still ci chan).0 ∙ g)
        (Same-IsProper chan _ (select_instance-Same con ci chan) h)
  talk_once-Kept (offer cis) chan g h =
      Kept-alive _ ((populate-Still cis chan).0 ∙ g)
        (Same-IsProper chan _ (populate-Same con cis chan) h)
  talk_once-Kept (end reason info) chan g h = destroy-Kept reason info chan g h

  run_talk-gone :
      (ts : List (Talk C)) (chan : Channel C) → chan.gone ≡ true → run_talk con ts chan ≡ chan
  unfolding run_talk
  run_talk-gone [] chan g = refl
  run_talk-gone (t ∷ ts) chan g =
      ap (λ b. if b then chan else run_talk con ts (talk_once con t chan)) g

  run_talk-alive :
      (t : Talk C) (ts : List (Talk C)) (chan : Channel C)
      → chan.gone ≡ false
      → run_talk con (t ∷ ts) chan ≡ run_talk con ts (talk_once con t chan)
  unfolding run_talk
  run_talk-alive t ts chan g =
      ap (λ b. if b then chan else run_talk con ts (talk_once con t chan)) g

  pub run_talk-Kept :
      (ts : List (Talk C)) (chan : Channel C)
      → chan.gone ≡ false
      → IsProper chan
      → Kept (run_talk con ts chan)
  run_talk-Kept [] chan g h = unfold run_talk in Kept-alive chan g h
  run_talk-Kept (t ∷ ts) chan g h =
      let next = talk_once con t chan in
      let k = talk_once-Kept t chan g h in
      subst Kept (sym (run_talk-alive t ts chan g)) (elim (Bool-cases next.gone) [
        | inl e ↦ subst Kept (sym (run_talk-gone ts next e)) k
        | inr e ↦ run_talk-Kept ts next e k.0
      ])

  -- A call and then others.
  step-Still :
      (t : Talk C) (ts : List (Talk C)) (chan : Channel C)
      → chan.gone ≡ false
      → Still chan (talk_once con t chan)
      → Still (talk_once con t chan) (run_talk con ts (talk_once con t chan))
      → Still chan (run_talk con (t ∷ ts) chan)
  step-Still t ts chan g s r =
      let next = talk_once con t chan in
      subst (Still chan) (sym (run_talk-alive t ts chan g))
        (Still-trans chan next (run_talk con ts next) s r)

  run_talk-Still :
      (ts : List (Talk C)) (chan : Channel C)
      → ends ts ≡ false
      → chan.gone ≡ false
      → Still chan (run_talk con ts chan)
  run_talk-Still [] chan f g = unfold run_talk in (refl, refl, refl)
  run_talk-Still (say type_ data_ encrypt_ ∷ ts) chan f g =
      let t = say type_ data_ encrypt_ in
      let s = send_encrypted-Still type_ data_ encrypt_ chan in
      step-Still t ts chan g s (run_talk-Still ts (talk_once con t chan) f (s.0 ∙ g))
  run_talk-Still (pick ci ∷ ts) chan f g =
      let s = select_instance-Still ci chan in
      step-Still (pick ci) ts chan g s
        (run_talk-Still ts (talk_once con (pick ci) chan) f (s.0 ∙ g))
  run_talk-Still (offer cis ∷ ts) chan f g =
      let s = populate-Still cis chan in
      step-Still (offer cis) ts chan g s
        (run_talk-Still ts (talk_once con (offer cis) chan) f (s.0 ∙ g))
  run_talk-Still (end reason info ∷ ts) chan f g = absurd (ground (arith, f))

  service_recv-Kept :
      (type_ : ℕ) (data_ : Opaque) (chan : Channel C)
      → chan.gone ≡ false
      → IsProper chan
      → Kept (service_recv con type_ data_ chan)
  unfolding service_recv
  service_recv-Kept type_ data_ chan g h = elim (Option-cases (con.service_at chan.service)) [
    | inl e ↦ rw e (Kept-alive chan g h)
    | inr (srvc, e) ↦
        let told = record chan { told = chan.told ++ (received type_ data_ ∷ []) } in
        rw e (
          run_talk-Kept (recv_calls srvc.on_recv type_ data_ told) told g
            (Same-IsProper chan told (refl, refl, refl, refl) h))
  ]

  pub channel_recv-Kept :
      (msg : ChannelSend) (chan : Channel C)
      → chan.gone ≡ false
      → IsProper chan
      → Kept (channel_recv (instance_decrypt con.ops) (service_recv con) msg chan)
  unfolding channel_recv
  channel_recv-Kept msg chan g h =
      let counted = record chan { msg_recv = chan.msg_recv + 1 } in
      let out = decrypted (instance_decrypt con.ops) chan.cipher (opaque_clone (some msg.data_)) in
      elim (Bool-cases (is_encrypted msg.head.options)) [
        | inl e ↦ rw e (
            service_recv-Kept (msg.type_ % 2 ^ 16) out.1 (record counted { cipher = out.0 }) g
              (Same-IsProper chan (record counted { cipher = out.0 }) (refl, refl, refl, refl) h))
        | inr e ↦ rw e (
            service_recv-Kept (msg.type_ % 2 ^ 16) msg.data_ counted g
              (Same-IsProper chan counted (refl, refl, refl, refl) h))
      ]

  pub recv_send-IsProper :
      (msg : ChannelSend) (chan : Channel C)
      → chan.gone ≡ false
      → IsProper chan
      → IsProper (recv_send (instance_decrypt con.ops) (service_recv con) msg chan)
  unfolding recv_send queue_incoming
  recv_send-IsProper msg chan g h = elim (Bool-cases (is_open chan.state)) [
    | inl e ↦ rw e (channel_recv-Kept msg chan g h).0
    | inr e ↦ rw e (Same-IsProper chan (queue_incoming msg chan) (refl, refl, refl, refl) h)
  ]

module _ {C : Type 0} (con : Context C)
    (patient : (type_ : ℕ) (srvc : Hooks C)
      → con.service_at type_ ≡ some srvc
      → IsPatient srvc) where
  service_recv-Still :
      (type_ : ℕ) (data_ : Opaque) (chan : Channel C)
      → chan.gone ≡ false
      → has_waiting chan.incoming_queue ≡ true
      → Still chan (service_recv con type_ data_ chan)
  unfolding service_recv
  service_recv-Still type_ data_ chan g w = elim (Option-cases (con.service_at chan.service)) [
    | inl e ↦ rw e (refl, refl, refl)
    | inr (srvc, e) ↦
        let told = record chan { told = chan.told ++ (received type_ data_ ∷ []) } in
        rw e (
          run_talk-Still con (recv_calls srvc.on_recv type_ data_ told) told
            (patient chan.service srvc e type_ data_ told w) g)
  ]

  channel_recv-Still :
      (msg : ChannelSend) (chan : Channel C)
      → chan.gone ≡ false
      → has_waiting chan.incoming_queue ≡ true
      → Still chan (channel_recv (instance_decrypt con.ops) (service_recv con) msg chan)
  unfolding channel_recv
  channel_recv-Still msg chan g w =
      let counted = record chan { msg_recv = chan.msg_recv + 1 } in
      let out = decrypted (instance_decrypt con.ops) chan.cipher (opaque_clone (some msg.data_)) in
      elim (Bool-cases (is_encrypted msg.head.options)) [
        | inl e ↦
            rw e (
              service_recv-Still (msg.type_ % 2 ^ 16) out.1 (record counted { cipher = out.0 }) g w)
        | inr e ↦ rw e (service_recv-Still (msg.type_ % 2 ^ 16) msg.data_ counted g w)
      ]

  recv_queued-Still :
      (msgs : List ChannelSend) (chan : Channel C)
      → chan.gone ≡ false
      → IsProper chan
      → has_waiting chan.incoming_queue ≡ true
      → let done = recv_queued (instance_decrypt con.ops) (service_recv con) msgs chan in
        Still chan done × IsProper done
  unfolding recv_queued
  recv_queued-Still [] chan g h w = ((refl, refl, refl), h)
  recv_queued-Still (msg ∷ msgs) chan g h w =
      let next = channel_recv (instance_decrypt con.ops) (service_recv con) msg chan in
      let s = channel_recv-Still msg chan g w in
      let k = channel_recv-Kept con msg chan g h in
      let (rest, proper) = recv_queued-Still msgs next (s.0 ∙ g) k.0 (ap has_waiting s.2 ∙ w) in
      (
        Still-trans chan next (recv_queued (instance_decrypt con.ops) (service_recv con) msgs next)
            s rest,
        proper,
      )

  -- Opening a channel that may be open.
  pub open_channel-IsProper :
      (chan : Channel C)
      → chan.gone ≡ false
      → IsProper (record chan { state = ch_open })
      → IsProper (open_channel con chan) × ((open_channel con chan).gone ≡ false)
  unfolding channel_open flush_channel
  open_channel-IsProper chan g h =
      let opened = record chan { state = ch_open } in
      let queued =
        recv_queued (instance_decrypt con.ops) (service_recv con) chan.incoming_queue opened in
      let (s, proper) : Still opened queued × IsProper queued =
        elim (waiting-cases chan.incoming_queue) [
          | inl e ↦
              subst
                (λ msgs.
                  let k = recv_queued (instance_decrypt con.ops) (service_recv con) msgs opened in
                  Still opened k × IsProper k)
                (sym e) (unfold recv_queued in ((refl, refl, refl), h))
          | inr w ↦ recv_queued-Still chan.incoming_queue opened g h w
        ] in
      let taken = record queued { incoming_queue = [] } in
      let done = write_all taken.outgoing_queue taken in
      (
        Same-IsProper done (record done { outgoing_queue = [] }) (refl, refl, refl, refl)
            (write_all-IsProper taken.outgoing_queue taken (ap is_open s.1) (s.0 ∙ g)
              (Same-IsProper queued taken (refl, refl, refl, refl) proper)),
        write_all-gone taken.outgoing_queue taken ∙ s.0 ∙ g,
      )
