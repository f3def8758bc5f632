-- ===== src/Channel/Life/Protocol/Arrives.antt =====
-- What arrives for a channel keeps its protocol, whatever the functions of its service do.
use meanwhile.Base.{
  ℕ, ◌≡◌, refl, sym, ◌∙◌, arith, Bool, true, false, Option, none, some, [], ◌∷◌, ◌++◌, ◌==◌,
  Bool-cases, Option-cases, inl, inr, eq_refl,
}
use meanwhile.Common.LoginInfo.{login_info_clone}
use meanwhile.Message.Channel.{ChannelCreate, ChannelAccept, ChannelDestroy, channel_destroy_zero}
use meanwhile.Message.Head.{message_head_zero}
use meanwhile.Common.EncryptItem.{EncryptItem}
use meanwhile.Message.Dispatch
use meanwhile.Cipher.Instance.{instance_accepted}
use meanwhile.Channel.{Channel, ChannelState, created, accepted, destroyed, ch_open, is_open}
use meanwhile.Channel.Life.{
  Context, Hooks, is_outgoing, is_wait, new_channel, select_instance, end_state, destroy,
  destroy_message, get_supported,
}
use meanwhile.Channel.Life.Receive.{
  create_calls, accept_calls, destroy_calls, service_recv_create, service_recv_accept,
  service_recv_destroy, known_create, recv_create, finish_accept, accept_cipher, recv_accept,
  recv_destroy,
}
use meanwhile.Channel.Life.Protocol.{
  IsPatient, Stage, stage_from, ended, is_legal, fits, fits-wait, fits-destroy, stage_of, IsProper,
  Same, Same-IsProper, wrote-IsProper,
}
use meanwhile.Channel.Life.Protocol.Keeps.{select_instance-Same, take_offers-Same, destroy-IsProper}
use meanwhile.Channel.Life.Protocol.Service.{open_channel-IsProper}
use meanwhile.Channel.Life.Protocol.Steps.{run_calls-Kept}

is_open_lem : (st : ChannelState) → is_open st ≡ true → st ≡ ch_open
is_open_lem ch_open e = refl
is_open_lem st e = cc

module _ {C : Type 0} (con : Context C)
    (patient : (type_ : ℕ) (srvc : Hooks C)
      → con.service_at type_ ≡ some srvc
      → IsPatient srvc) where
  finish_accept-IsProper :
      (srvc : Hooks C) (msg : ChannelAccept) (chan : Channel C)
      → chan.gone ≡ false
      → IsProper (record chan { state = ch_open })
      → IsProper (finish_accept con srvc msg chan)
  unfolding finish_accept
  finish_accept-IsProper srvc msg chan g h =
      let told = record chan { state = ch_open; told = chan.told ++ (accepted msg ∷ []) } in
      let told_h : IsProper told =
        Same-IsProper (record chan { state = ch_open }) told (refl, refl, refl, refl) h in
      let done = service_recv_accept con srvc msg (record chan { state = ch_open }) in
      let (done_h, closed) =
        run_calls-Kept con patient (accept_calls srvc.on_recv_accept msg told) told g told_h in
      elim (Bool-cases (is_open done.state)) [
        | inr e ↦ rw e done_h
        | inl e ↦ elim (Bool-cases done.gone) [
          | inl l ↦ absurd (ground (arith, e, closed l))
          | inr l ↦ rw e (
              (open_channel-IsProper con patient done l (
                Same-IsProper done (record done { state = ch_open })
                  (refl, refl, sym (is_open_lem done.state e), refl) done_h)).0)
        ]
      ]

  selected-IsProper :
      (srvc : Hooks C) (msg : ChannelAccept) (ci : Option C) (chan : Channel C)
      → chan.gone ≡ false
      → IsProper (record chan { state = ch_open })
      → IsProper (finish_accept con srvc msg (select_instance con ci chan))
  selected-IsProper srvc msg ci chan g o =
      let same = select_instance-Same con ci chan in
      finish_accept-IsProper srvc msg (select_instance con ci chan) (same.3 ∙ g) (
        Same-IsProper (record chan { state = ch_open })
          (record (select_instance con ci chan) { state = ch_open }) (same.0, same.1, refl, same.3)
          o)

  accept_cipher-IsProper :
      (srvc : Hooks C) (msg : ChannelAccept) (item : Option EncryptItem) (chan : Channel C)
      → chan.gone ≡ false
      → IsProper chan
      → IsProper (record chan { state = ch_open })
      → IsProper (accept_cipher con srvc msg item chan)
  unfolding accept_cipher
  accept_cipher-IsProper srvc msg none chan g h o = selected-IsProper srvc msg none chan g o
  accept_cipher-IsProper srvc msg (some item) chan g h o =
      elim (Bool-cases (msg.encrypt.mode == 0)) [
        | inl z ↦ rw z (selected-IsProper srvc msg none chan g o)
        | inr z ↦ elim (Option-cases (get_supported con chan item.id)) [
          | inl n ↦ rw (z, n) (destroy-IsProper con 0x80000001 none chan g h).0
          | inr (ci, n) ↦
              rw (z, n)
                (selected-IsProper srvc msg
                  (some (instance_accepted con.ops ci chan.user.login_id item)) chan g o)
        ]
      ]

  pub recv_accept-IsProper :
      (msg : ChannelAccept) (chan : Channel C)
      → chan.gone ≡ false
      → IsProper chan
      → IsProper (recv_accept con msg chan)
  unfolding recv_accept
  recv_accept-IsProper msg chan g h = elim (Bool-cases (chan.id == msg.head.channel)) [
    | inr i ↦ rw i h
    | inl i ↦ elim (Bool-cases (is_outgoing chan.id)) [
      | inr o ↦ rw (i, o) (destroy-IsProper con 0x80000001 none chan g h).0
      | inl o ↦ elim (Bool-cases (is_wait chan.state)) [
        | inr e ↦ rw (i, o, e) (destroy-IsProper con 0x80000001 none chan g h).0
        | inl e ↦
            let known = record chan { user = login_info_clone chan.user msg.acceptor } in
            let known_h = Same-IsProper chan known (refl, refl, refl, refl) h in
            let chosen = record known { policy = msg.encrypt.mode } in
            let first = fits-wait (is_outgoing chan.id) chan.state (stage_of chan) e (h.alive g) in
            elim (Option-cases (con.service_at chan.service)) [
              | inl n ↦ rw (i, o, e, n) (destroy-IsProper con 0x8000000d none known g known_h).0
              | inr (srvc, n) ↦
                  rw (i, o, e, n)
                    (accept_cipher-IsProper srvc msg msg.encrypt.item chosen g
                      (Same-IsProper chan chosen (refl, refl, refl, refl) h)
                      (record { legal = h.legal; alive = λ _. rw (first, o) refl }))
            ]
      ]
    ]
  ]

  gone-IsProper :
      (chan : Channel C) → is_legal (stage_of chan) ≡ true → IsProper (record chan { gone = true })
  gone-IsProper chan l = record { legal = l; alive = λ e. absurd (ground (arith, e)) }

  end_state-fits :
      (reason : ℕ) (out : Bool) (st : ChannelState) (s : Stage)
      → fits out st s ≡ true
      → fits out (end_state con reason) s ≡ true
  end_state-fits reason out st s a =
      let (_, d, e) = fits-destroy out st s (channel_destroy_zero message_head_zero) a in
      elim (Bool-cases (reason == 0)) [ inl z ↦ rw z d | inr z ↦ rw z e ]

  pub recv_destroy-IsProper :
      (msg : ChannelDestroy) (chan : Channel C)
      → chan.gone ≡ false
      → IsProper chan
      → IsProper (recv_destroy con msg chan)
  unfolding recv_destroy
  recv_destroy-IsProper msg chan g h = elim (Bool-cases (chan.id == msg.head.channel)) [
    | inr i ↦ rw i h
    | inl i ↦
        let ended = record chan { state = end_state con msg.reason } in
        let told = record ended { told = chan.told ++ (destroyed msg ∷ []) } in
        let told_h : IsProper told = record {
          legal = h.legal;
          alive = λ _.
              end_state-fits msg.reason (is_outgoing chan.id) chan.state (stage_of chan)
                (h.alive g);
        } in
        elim (Option-cases (con.service_at chan.service)) [
          | inl n ↦ rw (i, n) (gone-IsProper ended h.legal)
          | inr (srvc, n) ↦
              rw (i, n)
                (gone-IsProper (service_recv_destroy con srvc msg ended)
                  (run_calls-Kept con patient (destroy_calls srvc.on_recv_destroy msg told) told g
                    told_h).0.legal)
        ]
  ]

  told_create-IsProper :
      (srvc : Hooks C) (msg : ChannelCreate) (chan : Channel C)
      → chan.gone ≡ false
      → IsProper chan
      → IsProper (service_recv_create con srvc msg chan)
  told_create-IsProper srvc msg chan g h =
      let told = record chan { told = chan.told ++ (created msg ∷ []) } in
      (run_calls-Kept con patient (create_calls srvc.on_recv_create msg told) told g
        (Same-IsProper chan told (refl, refl, refl, refl) h)).0

  pub recv_create-IsProper :
      (msg : ChannelCreate) → IsProper (recv_create con msg (new_channel msg.channel))
  unfolding recv_create stage_from destroy
  recv_create-IsProper msg =
      let start : Channel C = new_channel msg.channel in
      elim (Bool-cases (is_outgoing msg.channel)) [
        | inl o ↦
            let out = Dispatch.channel_destroy (destroy_message con start 0x80000001 none) in
            rw (eq_refl msg.channel, o)
              (wrote-IsProper out start (destroy con 0x80000001 none start) ended refl refl
                (rw o refl) refl (λ e. absurd (ground (arith, e))))
        | inr o ↦
            let start_h : IsProper start = record { legal = refl; alive = λ _. rw o refl } in
            let known = known_create con msg start in
            let same : Same start known =
              take_offers-Same con msg.encrypt.items
                (record start { offered_policy = msg.encrypt.mode }) in
            let known_h = Same-IsProper start known same start_h in
            elim (Option-cases (con.service_at msg.service)) [
              | inl n ↦
                  rw (eq_refl msg.channel, o, n)
                    (destroy-IsProper con 0x8000000d none known same.3 known_h).0
              | inr (srvc, n) ↦
                  rw (eq_refl msg.channel, o, n)
                    (told_create-IsProper srvc msg known same.3 known_h)
            ]
      ]
