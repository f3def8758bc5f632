-- ===== src/Channel/Laws/Order.antt =====
-- Messages leave a channel in the order in which they were sent, each once, among those that its
-- service sends when it is called.
use meanwhile.Base.{
  ◌≡◌, refl, sym, ap, ◌∙◌, arith, true, Option, List, [], ◌∷◌, ◌++◌, append_assoc, append-nil, map,
  map-append, Bool-cases, inl, inr,
}
use meanwhile.Buffer.Opaque.{Opaque}
use meanwhile.Message.Channel.{ChannelSend}
use meanwhile.Message.Dispatch
use meanwhile.Message.Dispatch.{Message}
use meanwhile.Channel.{
  Channel, ch_open, is_open, queue_outgoing, queue_incoming, channel_send, select_cipher,
  channel_open, recv_send, Told,
}
use meanwhile.Channel.Laws.{
  waiting_out, replies, send_each, answers, replies-append, send_each-open, channel_recv-Answered,
  channel_open-sent,
}

-- A list that two lists make, each in its order.
pub data Merge {A : Type 0} : List A → List A → List A → Type 0 where
  empty : Merge [] [] []
  left : {x : A} {xs ys zs : List A} → Merge xs ys zs → Merge (x ∷ xs) ys (x ∷ zs)
  right : {y : A} {xs ys zs : List A} → Merge xs ys zs → Merge xs (y ∷ ys) (y ∷ zs)

Merge-lefts : {A : Type 0} (xs : List A) → Merge xs [] xs
Merge-lefts [] = empty
Merge-lefts (x ∷ xs) = left (Merge-lefts xs)

Merge-rights : {A : Type 0} (ys : List A) → Merge [] ys ys
Merge-rights [] = empty
Merge-rights (y ∷ ys) = right (Merge-rights ys)

Merge-rights_first : {A : Type 0} (ys xs : List A) → Merge xs ys (ys ++ xs)
Merge-rights_first [] xs = Merge-lefts xs
Merge-rights_first (y ∷ ys) xs = right (Merge-rights_first ys xs)

Merge-lefts_first : {A : Type 0} (xs ys : List A) → Merge xs ys (xs ++ ys)
Merge-lefts_first [] ys = Merge-rights ys
Merge-lefts_first (x ∷ xs) ys = left (Merge-lefts_first xs ys)

Merge-append :
    {A : Type 0} {xs ys zs xs' ys' zs' : List A}
    → Merge xs ys zs
    → Merge xs' ys' zs'
    → Merge (xs ++ xs') (ys ++ ys') (zs ++ zs')
Merge-append empty n = n
Merge-append (left m) n = left (Merge-append m n)
Merge-append (right m) n = right (Merge-append m n)

-- What can happen to a channel: a message is sent on it, one arrives, a cipher is selected, and it
-- is opened, with what the service's recv_accept sends before the queues are flushed.
pub data Action (C : Type 0) : Type 0 where
  post : ChannelSend → Action C
  arrive : ChannelSend → Action C
  select : Option C → Action C
  open_ : List ChannelSend → Action C

abbrev pub posted : {C : Type 0} → List (Action C) → List Message
posted [] = []
posted (post msg ∷ acts) = Dispatch.channel_send msg ∷ posted acts
posted (arrive msg ∷ acts) = posted acts
posted (select ci ∷ acts) = posted acts
posted (open_ msgs ∷ acts) = posted acts

abbrev pub hurried : {C : Type 0} → List (Action C) → List Message
hurried [] = []
hurried (post msg ∷ acts) = hurried acts
hurried (arrive msg ∷ acts) = hurried acts
hurried (select ci ∷ acts) = hurried acts
hurried (open_ msgs ∷ acts) = map Dispatch.channel_send msgs ++ hurried acts

-- When it is open nothing waits to go out.
abbrev pub IsFlushed : {C : Type 0} → Channel C → Type 0
IsFlushed chan = is_open chan.state ≡ true → chan.outgoing_queue ≡ []

-- `done` is what actions make of `chan`: its service was told `news`, and what was given to the
-- session since is made of the channel's own messages and of those of the service's functions, each
-- in their order. The own ones, with what still waits behind them, are those that waited and then
-- those that were posted; the others are made of what was sent by recv_accept and of the answers.
pub record InOrder {C : Type 0} (reply : List Told → List ChannelSend) (acts : List (Action C))
    (chan done : Channel C) : Type 0 where
  pub own : List Message
  pub others : List Message
  pub made : List Message
  pub news : List Told
  pub is_told : done.told ≡ chan.told ++ news
  pub is_sent : done.sent ≡ chan.sent ++ made
  pub is_made : Merge own others made
  pub is_own : own ++ waiting_out done ≡ waiting_out chan ++ posted acts
  pub is_other : Merge (hurried acts) (replies reply chan.told news) others
  pub is_flushed : is_open done.state ≡ true → done.outgoing_queue ≡ []

module _ {C : Type 0} (decrypt : C → Opaque → C × Opaque)
    (reply : List Told → List ChannelSend) where
  abbrev pub act : Action C → Channel C → Channel C
  act (post msg) chan = channel_send msg chan
  act (arrive msg) chan = recv_send decrypt (answers reply) msg chan
  act (select ci) chan = select_cipher ci chan
  act (open_ msgs) chan =
      channel_open decrypt (answers reply) (send_each msgs (record chan { state = ch_open }))

  abbrev pub act_all : List (Action C) → Channel C → Channel C
  act_all [] chan = chan
  act_all (a ∷ acts) chan = act_all acts (act a chan)

  -- Nothing goes out and nothing is told.
  quiet-InOrder :
      (acts : List (Action C)) (chan done : Channel C)
      → posted acts ≡ []
      → hurried acts ≡ []
      → done.told ≡ chan.told
      → done.sent ≡ chan.sent
      → done.outgoing_queue ≡ chan.outgoing_queue
      → IsFlushed done
      → InOrder reply acts chan done
  quiet-InOrder acts chan done p h t s q f = record {
    own = [];
    others = [];
    made = [];
    news = [];
    is_told = t ∙ sym (append-nil chan.told);
    is_sent = s ∙ sym (append-nil chan.sent);
    is_made = empty;
    is_own = rw (q, p) (sym (append-nil (waiting_out chan)));
    is_other = rw h empty;
    is_flushed = f;
  }

  channel_send-InOrder :
      (msg : ChannelSend) (chan : Channel C)
      → IsFlushed chan
      → InOrder reply (post msg ∷ []) chan (channel_send msg chan)
  unfolding channel_send queue_outgoing
  channel_send-InOrder msg chan h = elim (Bool-cases (is_open chan.state)) [
    | inl e ↦ rw e (record {
      own = Dispatch.channel_send msg ∷ [];
      others = [];
      made = Dispatch.channel_send msg ∷ [];
      news = [];
      is_told = sym (append-nil chan.told);
      is_sent = refl;
      is_made = Merge-lefts (Dispatch.channel_send msg ∷ []);
      is_own = rw (h e) refl;
      is_other = empty;
      is_flushed = h;
    })
    | inr e ↦ rw e (record {
      own = [];
      others = [];
      made = [];
      news = [];
      is_told = sym (append-nil chan.told);
      is_sent = sym (append-nil chan.sent);
      is_made = empty;
      is_own = map-append Dispatch.channel_send chan.outgoing_queue (msg ∷ []);
      is_other = empty;
      is_flushed = λ o. absurd (ground (arith, e, o));
    })
  ]

  recv_send-InOrder :
      (msg : ChannelSend) (chan : Channel C)
      → IsFlushed chan
      → InOrder reply (arrive msg ∷ []) chan (recv_send decrypt (answers reply) msg chan)
  unfolding recv_send queue_incoming
  recv_send-InOrder msg chan h = elim (Bool-cases (is_open chan.state)) [
    | inr e ↦ rw e (
        quiet-InOrder (arrive msg ∷ []) chan (queue_incoming msg chan) refl refl refl refl refl
          (λ o. absurd (ground (arith, e, o))))
    | inl e ↦
        let r = channel_recv-Answered decrypt reply msg chan e in
        rw e (record {
          own = [];
          others = replies reply chan.told r.news;
          made = replies reply chan.told r.news;
          news = r.news;
          is_told = r.is_told;
          is_sent = r.is_sent;
          is_made = Merge-rights (replies reply chan.told r.news);
          is_own =
              ap (map Dispatch.channel_send) r.kept_queue ∙ sym (append-nil (waiting_out chan));
          is_other = Merge-rights (replies reply chan.told r.news);
          is_flushed = λ _. r.kept_queue ∙ h e;
        })
  ]

  channel_open-InOrder :
      (msgs : List ChannelSend) (chan : Channel C)
      → InOrder reply (open_ msgs ∷ []) chan (act (open_ msgs) chan)
  channel_open-InOrder msgs chan =
      let marked = record chan { state = ch_open } in
      let early = map Dispatch.channel_send msgs in
      let hasty = send_each msgs marked in
      let e : hasty ≡ record marked { sent = chan.sent ++ early } =
        send_each-open msgs marked refl in
      let told = ap (λ (k : Channel C). k.told) e in
      let (news, (t, s, q)) = channel_open-sent decrypt reply hasty in
      let answered = replies reply chan.told news in
      record {
        own = waiting_out chan;
        others = early ++ answered;
        made = (early ++ answered) ++ waiting_out chan;
        news = news;
        is_told = t ∙ ap (λ l. l ++ news) told;
        is_sent =
            s
            ∙ ap (λ (k : Channel C). (k.sent ++ replies reply k.told news) ++ waiting_out k) e
            ∙ rw
                (
                  append_assoc chan.sent early answered,
                  append_assoc chan.sent (early ++ answered) (waiting_out chan),
                )
                refl;
        is_made = Merge-rights_first (early ++ answered) (waiting_out chan);
        is_own = ap (λ l. waiting_out chan ++ map Dispatch.channel_send l) q;
        is_other = rw (append-nil early) (Merge-lefts_first early answered);
        is_flushed = λ _. q;
      }

  act-InOrder :
      (a : Action C) (chan : Channel C) → IsFlushed chan → InOrder reply (a ∷ []) chan (act a chan)
  act-InOrder (post msg) chan h = channel_send-InOrder msg chan h
  act-InOrder (arrive msg) chan h = recv_send-InOrder msg chan h
  act-InOrder (select ci) chan h =
      quiet-InOrder (select ci ∷ []) chan (select_cipher ci chan) refl refl refl refl refl h
  act-InOrder (open_ msgs) chan h = channel_open-InOrder msgs chan

  act-split :
      (a : Action C) (acts : List (Action C))
      → (posted (a ∷ acts) ≡ posted (a ∷ []) ++ posted acts)
        × (hurried (a ∷ acts) ≡ hurried (a ∷ []) ++ hurried acts)
  act-split (post msg) acts = (refl, refl)
  act-split (arrive msg) acts = (refl, refl)
  act-split (select ci) acts = (refl, refl)
  act-split (open_ msgs) acts =
      (refl, ap (λ t. t ++ hurried acts) (sym (append-nil (map Dispatch.channel_send msgs))))

  join-InOrder :
      (a : Action C) (acts : List (Action C)) (chan mid done : Channel C)
      → InOrder reply (a ∷ []) chan mid
      → InOrder reply acts mid done
      → InOrder reply (a ∷ acts) chan done
  join-InOrder a acts chan mid done p q =
      let (post_split, early_split) = act-split a acts in
      let told : replies reply chan.told (p.news ++ q.news)
          ≡ replies reply chan.told p.news ++ replies reply mid.told q.news =
        replies-append reply chan.told p.news q.news
        ∙ ap (λ t. replies reply chan.told p.news ++ replies reply t q.news) (sym p.is_told) in
      record {
        own = p.own ++ q.own;
        others = p.others ++ q.others;
        made = p.made ++ q.made;
        news = p.news ++ q.news;
        is_told =
            q.is_told ∙ ap (λ t. t ++ q.news) p.is_told ∙ append_assoc chan.told p.news q.news;
        is_sent =
            q.is_sent ∙ ap (λ t. t ++ q.made) p.is_sent ∙ append_assoc chan.sent p.made q.made;
        is_made = Merge-append p.is_made q.is_made;
        is_own =
            append_assoc p.own q.own (waiting_out done)
            ∙ ap (λ t. p.own ++ t) q.is_own
            ∙ sym (append_assoc p.own (waiting_out mid) (posted acts))
            ∙ ap (λ t. t ++ posted acts) p.is_own
            ∙ append_assoc (waiting_out chan) (posted (a ∷ [])) (posted acts)
            ∙ ap (λ t. waiting_out chan ++ t) (sym post_split);
        is_other = rw (early_split, told) (Merge-append p.is_other q.is_other);
        is_flushed = q.is_flushed;
      }

  -- From a channel that, if it is open, has nothing queued to go out, through any sequence of
  -- messages sent on it, messages that arrive, selections of a cipher and openings, each with
  -- what the service's recv_accept sends before the flush, for any cipher, and for a service
  -- that, each time it is given a message, sends answers that depend on all that it was told so
  -- far: what was given to the session since is an interleaving of two lists. The one, with what
  -- is still queued behind it, is what was queued before and then the messages that were sent on
  -- the channel, in this order. The other interleaves what recv_accept sent, in order, with the
  -- answers to what the service was told, in order. And if the channel is open in the end,
  -- nothing is queued (`InOrder`).
  pub channel_order :
      (acts : List (Action C)) (chan : Channel C)
      → (is_open chan.state ≡ true → chan.outgoing_queue ≡ [])
      → InOrder reply acts chan (act_all acts chan)
  channel_order [] chan h = quiet-InOrder [] chan chan refl refl refl refl refl h
  channel_order (a ∷ acts) chan h =
      let first = act-InOrder a chan h in
      join-InOrder a acts chan (act a chan) (act_all acts (act a chan)) first
        (channel_order acts (act a chan) first.is_flushed)
