-- ===== src/Channel/Life/Protocol/Steps.antt =====
-- Creating and accepting a channel, and all the calls of a service on it, keep its protocol.
use mathlib.Core.Path.{subst}
use meanwhile.Base.{
  ℕ, sym, some, List, if◌then◌else◌, ◌≡◌, refl, ap, ◌∙◌, true, false, [], ◌∷◌, ◌++◌, ◌==◌,
  Bool-cases, inl, inr,
}
use meanwhile.Message.Channel.{ChannelAccept}
use meanwhile.Message.Dispatch
use meanwhile.Channel.{Channel, ch_open, ch_error}
use meanwhile.Channel.Life.{
  Hooks, Context, is_outgoing, is_init, is_wait, supported_list, offer_policy, create,
  create_message, Call, talk, service_is, proto_type_is, proto_ver_is, options_are, create_it,
  accept_it,
}
use meanwhile.Channel.Life.Accept.{
  choose_cipher, accept_item, accept_message, accept, call_once, run_calls,
}
use meanwhile.Channel.Life.Protocol.{
  IsPatient, Same-IsProper, fresh, offered, taken, advance, fits, fits-init, fits-wait, stage_of,
  IsProper, Same, wrote-IsProper,
}
use meanwhile.Channel.Life.Protocol.Keeps.{choose_cipher-Same}
use meanwhile.Channel.Life.Protocol.Service.{
  Kept, Kept-alive, open_channel-IsProper, talk_once-Kept,
}

module _ {C : Type 0} (con : Context C) where
  pub create-IsProper :
      (chan : Channel C) → chan.gone ≡ false → IsProper chan → IsProper (create con chan)
  unfolding create
  create-IsProper chan g h = elim (Bool-cases (is_init chan.state)) [
    | inr e ↦ rw e h
    | inl e ↦ elim (Bool-cases (is_outgoing chan.id)) [
      | inr o ↦ rw (e, o) h
      | inl o ↦
          let msg = Dispatch.channel_create (create_message con chan) in
          let start = record chan {
            offered_policy = offer_policy con (supported_list con chan.supported);
          } in
          let first = fits-init (is_outgoing chan.id) chan.state (stage_of chan) e (h.alive g) in
          let now : advance (is_outgoing chan.id) (stage_of chan) msg ≡ offered =
            rw (first, o) refl in
          elim (Bool-cases (con.send_result chan.sent msg == 0)) [
            | inl r ↦
                rw (e, o, r)
                  (wrote-IsProper msg start _ offered refl refl now refl (λ _. rw o refl))
            | inr r ↦
                rw (e, o, r) (wrote-IsProper msg start _ offered refl refl now refl (λ _. refl))
          ]
    ]
  ]

  create-alive : (chan : Channel C) → chan.gone ≡ false → (create con chan).gone ≡ false
  unfolding create
  create-alive chan g = elim (Bool-cases (is_init chan.state)) [
    | inr e ↦ rw e g
    | inl e ↦ elim (Bool-cases (is_outgoing chan.id)) [
      | inr o ↦ rw (e, o) g
      | inl o ↦
          let msg = Dispatch.channel_create (create_message con chan) in
          elim (Bool-cases (con.send_result chan.sent msg == 0)) [
            | inl r ↦ rw (e, o, r) g
            | inr r ↦ rw (e, o, r) g
          ]
    ]
  ]

  -- The message of acceptance was written.
  accepted-IsProper :
      (msg : ChannelAccept) (chan done : Channel C)
      → is_outgoing chan.id ≡ false
      → stage_of chan ≡ fresh
      → done.id ≡ chan.id
      → done.sent ≡ chan.sent ++ (Dispatch.channel_accept msg ∷ [])
      → fits false done.state taken ≡ true
      → IsProper done
  accepted-IsProper msg chan done o first i s f =
      wrote-IsProper (Dispatch.channel_accept msg) chan done taken i s (rw (first, o) refl) refl
        (λ _. rw o f)

module _ {C : Type 0} (con : Context C)
    (patient : (type_ : ℕ) (srvc : Hooks C)
      → con.service_at type_ ≡ some srvc
      → IsPatient srvc) where
  pub accept-IsProper :
      (chan : Channel C)
      → chan.gone ≡ false
      → IsProper chan
      → IsProper (accept con chan) × ((accept con chan).gone ≡ false)
  unfolding accept
  accept-IsProper chan g h = elim (Bool-cases (is_outgoing chan.id)) [
    | inl o ↦ rw o (h, g)
    | inr o ↦ elim (Bool-cases (is_wait chan.state)) [
      | inr e ↦ rw (o, e) (h, g)
      | inl e ↦
          let chosen = choose_cipher con chan in
          let item = accept_item con chosen.cipher chosen.user.login_id in
          let carried = record chosen { cipher = item.0 } in
          let msg = accept_message con chosen item.1 in
          let same : Same chan carried = choose_cipher-Same con chan in
          let first : stage_of carried ≡ fresh =
            rw (same.0, same.1)
              (fits-wait (is_outgoing chan.id) chan.state (stage_of chan) e (h.alive g)
                ∙ rw o refl) in
          let out = record carried { sent = carried.sent ++ (Dispatch.channel_accept msg ∷ []) } in
          let o' : is_outgoing carried.id ≡ false = ap is_outgoing (same.0) ∙ o in
          let g' : out.gone ≡ false = same.3 ∙ g in
          elim (Bool-cases (con.send_result carried.sent (Dispatch.channel_accept msg) == 0)) [
            | inl r ↦
                rw (o, e, r)
                  (open_channel-IsProper con patient out g' (
                    accepted-IsProper con msg carried (record out { state = ch_open }) o' first refl
                      refl refl))
            | inr r ↦
                rw (o, e, r)
                  (
                    accepted-IsProper con msg carried (record out { state = ch_error }) o' first
                        refl refl refl,
                    g',
                  )
          ]
    ]
  ]

  set-Kept :
      (chan done : Channel C)
      → Same chan done
      → chan.gone ≡ false
      → IsProper chan
      → Kept (if is_init chan.state then done else chan)
  set-Kept chan done s g h = elim (Bool-cases (is_init chan.state)) [
    | inl e ↦
        subst (λ b. Kept (if b then done else chan)) (sym e)
          (Kept-alive done (s.3 ∙ g) (Same-IsProper chan done s h))
    | inr e ↦ subst (λ b. Kept (if b then done else chan)) (sym e) (Kept-alive chan g h)
  ]

  pub call_once-Kept :
      (c : Call C) (chan : Channel C)
      → chan.gone ≡ false
      → IsProper chan
      → Kept (call_once con c chan)
  call_once-Kept (talk t) chan g h = talk_once-Kept con t chan g h
  call_once-Kept (service_is v) chan g h = set-Kept chan _ (refl, refl, refl, refl) g h
  call_once-Kept (proto_type_is v) chan g h = set-Kept chan _ (refl, refl, refl, refl) g h
  call_once-Kept (proto_ver_is v) chan g h = set-Kept chan _ (refl, refl, refl, refl) g h
  call_once-Kept (options_are v) chan g h = set-Kept chan _ (refl, refl, refl, refl) g h
  call_once-Kept create_it chan g h =
      Kept-alive _ (create-alive con chan g) (create-IsProper con chan g h)
  call_once-Kept accept_it chan g h =
      let (kept, alive) = accept-IsProper chan g h in Kept-alive _ alive kept

  run_calls-gone :
      (cs : List (Call C)) (chan : Channel C) → chan.gone ≡ true → run_calls con cs chan ≡ chan
  unfolding run_calls
  run_calls-gone [] chan g = refl
  run_calls-gone (c ∷ cs) chan g =
      ap (λ b. if b then chan else run_calls con cs (call_once con c chan)) g

  run_calls-alive :
      (c : Call C) (cs : List (Call C)) (chan : Channel C)
      → chan.gone ≡ false
      → run_calls con (c ∷ cs) chan ≡ run_calls con cs (call_once con c chan)
  unfolding run_calls
  run_calls-alive c cs chan g =
      ap (λ b. if b then chan else run_calls con cs (call_once con c chan)) g

  -- The calls that a service makes keep the protocol.
  pub run_calls-Kept :
      (cs : List (Call C)) (chan : Channel C)
      → chan.gone ≡ false
      → IsProper chan
      → Kept (run_calls con cs chan)
  run_calls-Kept [] chan g h = unfold run_calls in Kept-alive chan g h
  run_calls-Kept (c ∷ cs) chan g h =
      let next = call_once con c chan in
      let k = call_once-Kept c chan g h in
      subst Kept (sym (run_calls-alive c cs chan g)) (elim (Bool-cases next.gone) [
        | inl e ↦ subst Kept (sym (run_calls-gone cs next e)) k
        | inr e ↦ run_calls-Kept cs next e k.0
      ])
