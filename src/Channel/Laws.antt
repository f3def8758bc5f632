-- ===== src/Channel/Laws.antt =====
-- What a channel of src/channel.c does with its queues when it is opened, for a service that answers.
pub mod Order
use meanwhile.Base.{
  ℕ, ◌+◌, ◌%◌, ◌^◌, ◌≡◌, refl, sym, ap, ◌∙◌, arith, true, false, Option, none, some, List, [], ◌∷◌,
  ◌++◌, append_assoc, append-nil, map, map-append, Bool-cases, inl, inr,
}
use meanwhile.Buffer.Opaque.{Opaque}
use meanwhile.Basic.{opaque_clone}
use meanwhile.Message.Head.{message_head_zero}
use meanwhile.Message.Channel.{ChannelSend}
use meanwhile.Message.Dispatch
use meanwhile.Message.Dispatch.{Message}
use meanwhile.Channel.{
  Channel, ch_open, is_open, is_encrypted, queue_outgoing, queue_incoming, write_send, channel_send,
  write_all, select_cipher, send_encrypted, channel_recv, recv_queued, flush_channel, channel_open,
  recv_send, Told, received, decrypted,
}

abbrev pub waiting_out : {C : Type 0} → Channel C → List Message
waiting_out chan = map Dispatch.channel_send chan.outgoing_queue

-- The answers to what a service is told, `reply` of all that it was told until then each time.
abbrev pub replies : (List Told → List ChannelSend) → List Told → List Told → List Message
replies reply before [] = []
replies reply before (n ∷ news) =
    map Dispatch.channel_send (reply (before ++ (n ∷ [])))
    ++ replies reply (before ++ (n ∷ [])) news

abbrev pub send_each : {C : Type 0} → List ChannelSend → Channel C → Channel C
send_each [] chan = chan
send_each (msg ∷ msgs) chan = send_each msgs (channel_send msg chan)

-- The recv of a service that sends its answers on the channel.
abbrev pub answers :
    {C : Type 0} → (List Told → List ChannelSend) → ℕ → Opaque → Channel C → Channel C
answers reply type_ data_ chan =
    let told = chan.told ++ (received type_ data_ ∷ []) in
    send_each (reply told) (record chan { told = told })

pub replies-append :
    (reply : List Told → List ChannelSend) (before news more : List Told)
    → replies reply before (news ++ more)
      ≡ replies reply before news ++ replies reply (before ++ news) more
replies-append reply before [] more = rw (append-nil before) refl
replies-append reply before (n ∷ news) more =
    rw
      (
        replies-append reply (before ++ (n ∷ [])) news more,
        append_assoc before (n ∷ []) news,
        append_assoc (map Dispatch.channel_send (reply (before ++ (n ∷ []))))
            (replies reply (before ++ (n ∷ [])) news) (replies reply (before ++ (n ∷ news)) more),
      )
      refl

write_all-sent :
    {C : Type 0} (msgs : List ChannelSend) (chan : Channel C)
    → write_all msgs chan ≡ record chan { sent = chan.sent ++ map Dispatch.channel_send msgs }
unfolding write_all
write_all-sent [] chan = rw (append-nil chan.sent) refl
write_all-sent (msg ∷ msgs) chan =
    write_all-sent msgs (write_send msg chan)
    ∙ rw (append_assoc chan.sent (Dispatch.channel_send msg ∷ []) (map Dispatch.channel_send msgs))
        refl

-- On an open channel a message goes to the session at once.
pub send_each-open :
    {C : Type 0} (msgs : List ChannelSend) (chan : Channel C)
    → is_open chan.state ≡ true
    → send_each msgs chan ≡ record chan { sent = chan.sent ++ map Dispatch.channel_send msgs }
unfolding channel_send
send_each-open [] chan o = rw (append-nil chan.sent) refl
send_each-open (msg ∷ msgs) chan o =
    let first : channel_send msg chan ≡ write_send msg chan = rw o refl in
    ap (send_each msgs) first
    ∙ send_each-open msgs (write_send msg chan) o
    ∙ rw (append_assoc chan.sent (Dispatch.channel_send msg ∷ []) (map Dispatch.channel_send msgs))
        refl

-- What a service is told on an open channel, and what its answers do.
pub record Answered {C : Type 0} (reply : List Told → List ChannelSend) (chan done : Channel C)
    : Type 0 where
  pub news : List Told
  pub is_told : done.told ≡ chan.told ++ news
  pub is_sent : done.sent ≡ chan.sent ++ replies reply chan.told news
  pub kept_queue : done.outgoing_queue ≡ chan.outgoing_queue
  pub kept_state : done.state ≡ chan.state

Answered-trans :
    {C : Type 0} (reply : List Told → List ChannelSend) (a b c : Channel C)
    → Answered reply a b
    → Answered reply b c
    → Answered reply a c
Answered-trans reply a b c p q = record {
  news = p.news ++ q.news;
  is_told = q.is_told ∙ ap (λ t. t ++ q.news) p.is_told ∙ append_assoc a.told p.news q.news;
  is_sent =
      q.is_sent
      ∙ ap (λ t. t ++ replies reply b.told q.news) p.is_sent
      ∙ append_assoc a.sent (replies reply a.told p.news) (replies reply b.told q.news)
      ∙ ap (λ t. a.sent ++ (replies reply a.told p.news ++ replies reply t q.news)) p.is_told
      ∙ ap (λ t. a.sent ++ t) (sym (replies-append reply a.told p.news q.news));
  kept_queue = q.kept_queue ∙ p.kept_queue;
  kept_state = q.kept_state ∙ p.kept_state;
}

module _ {C : Type 0} (reply : List Told → List ChannelSend) where
  answers-Answered :
      (type_ : ℕ) (data_ : Opaque) (chan : Channel C)
      → is_open chan.state ≡ true
      → Answered reply chan (answers reply type_ data_ chan)
  answers-Answered type_ data_ chan o =
      let news = received type_ data_ ∷ [] in
      let told = record chan { told = chan.told ++ news } in
      let e = send_each-open (reply (chan.told ++ news)) told o in
      record {
        news = news;
        is_told = ap (λ (k : Channel C). k.told) e;
        is_sent =
            ap (λ (k : Channel C). k.sent) e
            ∙ ap (λ t. chan.sent ++ t)
                (sym (append-nil (map Dispatch.channel_send (reply (chan.told ++ news)))));
        kept_queue = ap (λ (k : Channel C). k.outgoing_queue) e;
        kept_state = ap (λ (k : Channel C). k.state) e;
      }

module _ {C : Type 0} (decrypt : C → Opaque → C × Opaque)
    (reply : List Told → List ChannelSend) where
  pub channel_recv-Answered :
      (msg : ChannelSend) (chan : Channel C)
      → is_open chan.state ≡ true
      → Answered reply chan (channel_recv decrypt (answers reply) msg chan)
  unfolding channel_recv
  channel_recv-Answered msg chan o =
      let counted = record chan { msg_recv = chan.msg_recv + 1 } in
      let out = decrypted decrypt chan.cipher (opaque_clone (some msg.data_)) in
      elim (Bool-cases (is_encrypted msg.head.options)) [
        | inl e ↦
            let r =
              answers-Answered reply (msg.type_ % 2 ^ 16) out.1 (record counted { cipher = out.0 })
                o in
            rw e (record {
              news = r.news;
              is_told = r.is_told;
              is_sent = r.is_sent;
              kept_queue = r.kept_queue;
              kept_state = r.kept_state;
            })
        | inr e ↦
            let r = answers-Answered reply (msg.type_ % 2 ^ 16) msg.data_ counted o in
            rw e (record {
              news = r.news;
              is_told = r.is_told;
              is_sent = r.is_sent;
              kept_queue = r.kept_queue;
              kept_state = r.kept_state;
            })
      ]

  recv_queued-Answered :
      (msgs : List ChannelSend) (chan : Channel C)
      → is_open chan.state ≡ true
      → Answered reply chan (recv_queued decrypt (answers reply) msgs chan)
  unfolding recv_queued
  recv_queued-Answered [] chan o = record {
    news = [];
    is_told = sym (append-nil chan.told);
    is_sent = sym (append-nil chan.sent);
    kept_queue = refl;
    kept_state = refl;
  }
  recv_queued-Answered (msg ∷ msgs) chan o =
      let next = channel_recv decrypt (answers reply) msg chan in
      let first = channel_recv-Answered msg chan o in
      Answered-trans reply chan next (recv_queued decrypt (answers reply) msgs next) first
        (recv_queued-Answered msgs next (ap is_open first.kept_state ∙ o))

  -- Opening a channel: the answers to what had arrived go out first, then what was queued.
  pub channel_open-sent :
      (chan : Channel C)
      → let done = channel_open decrypt (answers reply) chan in
        (news : List Told) × ((done.told ≡ chan.told ++ news)
          × (done.sent ≡ (chan.sent ++ replies reply chan.told news) ++ waiting_out chan)
          × (done.outgoing_queue ≡ []))
  unfolding channel_open flush_channel
  channel_open-sent chan =
      let opened = record chan { state = ch_open } in
      let received = record (recv_queued decrypt (answers reply) chan.incoming_queue opened) {
        incoming_queue = [];
      } in
      let r = recv_queued-Answered chan.incoming_queue opened refl in
      let e = write_all-sent received.outgoing_queue received in
      (
        r.news,
        (
          ap (λ (k : Channel C). k.told) e ∙ r.is_told,
          ap (λ (k : Channel C). k.sent) e
              ∙ ap (λ t. t ++ waiting_out received) r.is_sent
              ∙ ap
                  (λ t.
                    (chan.sent ++ replies reply chan.told r.news) ++ map Dispatch.channel_send t)
                  r.kept_queue,
          refl,
        ),
      )

  -- A message sent with encryption on a channel that is not open, has no cipher and nothing
  -- queued to go out, when a cipher is then selected and the channel opened, for a service that
  -- sends answers to what had arrived: behind these answers the message goes to the session with
  -- its data as it was given, and without the option that it is encrypted.
  pub early_in_clear :
      (encrypt : C → Opaque → C × Opaque) (chan : Channel C) (type_ : ℕ) (data_ : Opaque) (ci : C)
      → is_open chan.state ≡ false
      → chan.cipher ≡ none
      → chan.outgoing_queue ≡ []
      → let early = send_encrypted encrypt type_ data_ true chan in
        let done = channel_open decrypt (answers reply) (select_cipher (some ci) early) in
        (news : List Told) × ((done.told ≡ chan.told ++ news)
          × (done.sent
              ≡ (chan.sent ++ replies reply chan.told news)
                ++ (Dispatch.channel_send (record {
                  head = record message_head_zero { type_ = 0x0004; channel = chan.id };
                  type_ = type_;
                  data_ = opaque_clone (some data_);
                })
                    ∷ [])))
  unfolding send_encrypted channel_send queue_outgoing
  early_in_clear encrypt chan type_ data_ ci shut plain empty_queue =
      let clear = Dispatch.channel_send (record {
        head = record message_head_zero { type_ = 0x0004; channel = chan.id };
        type_ = type_;
        data_ = opaque_clone (some data_);
      }) in
      let early = send_encrypted encrypt type_ data_ true chan in
      let (news, (t, s, q)) = channel_open-sent (select_cipher (some ci) early) in
      let told : early.told ≡ chan.told = rw (plain, shut) refl in
      let sent : early.sent ≡ chan.sent = rw (plain, shut) refl in
      let queued : waiting_out early ≡ clear ∷ [] = rw (plain, shut, empty_queue) refl in
      (
        news,
        (
          t ∙ ap (λ l. l ++ news) told,
          s
              ∙ ap (λ l. (l ++ replies reply early.told news) ++ waiting_out early) sent
              ∙ ap (λ l. (chan.sent ++ replies reply l news) ++ waiting_out early) told
              ∙ ap (λ l. (chan.sent ++ replies reply chan.told news) ++ l) queued,
        ),
      )
