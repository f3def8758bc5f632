-- ===== src/Channel/Life/Protocol.antt =====
-- The protocol of a channel: what it may write, in which order, and how this goes with its state.
pub mod Keeps
pub mod Service
pub mod Steps
pub mod Arrives
pub mod Reach
use meanwhile.Base.{
  ℕ, ◌≡◌, refl, sym, ap, ◌∙◌, arith, Bool, true, false, not, ◌||◌, ◌&&◌, Option, none, some, List,
  [], ◌∷◌, ◌++◌, map, ◌==◌, if◌then◌else◌, Bool-cases, inl, inr, append-nil, append_assoc,
}
use mathlib.Core.Path.{subst}
use meanwhile.Message.Channel.{ChannelSend, ChannelDestroy}
use meanwhile.Message.Dispatch
use meanwhile.Message.Dispatch.{Message}
use meanwhile.Channel.{
  Channel, ChannelState, ch_new, ch_init, ch_wait, ch_open, ch_destroy, ch_error, ch_unknown,
  is_open,
}
use meanwhile.Buffer.Opaque.{Opaque}
use meanwhile.Channel.Life.{
  Talk, say, pick, offer, end, Hooks, recv_calls, is_outgoing, is_init, is_wait, new_channel,
}

-- How far a channel got: nothing written, its creation, its acceptance, its destruction, or
-- something out of order.
pub data Stage : Type 0 where
  fresh offered taken ended broken : Stage

-- What a message does to it, for an outgoing channel and for an incoming one.
abbrev pub advance : Bool → Stage → Message → Stage
advance true fresh (Dispatch.channel_create m) = offered
advance false fresh (Dispatch.channel_accept m) = taken
advance out fresh (Dispatch.channel_destroy m) = ended
advance out offered (Dispatch.channel_send m) = offered
advance out offered (Dispatch.channel_destroy m) = ended
advance out taken (Dispatch.channel_send m) = taken
advance out taken (Dispatch.channel_destroy m) = ended
advance out s m = broken

unfoldable pub stage_from : Bool → Stage → List Message → Stage
stage_from out s [] = s
stage_from out s (m ∷ ms) = stage_from out (advance out s m) ms

pub stage_from-append :
    (out : Bool) (s : Stage) (ms ns : List Message)
    → stage_from out s (ms ++ ns) ≡ stage_from out (stage_from out s ms) ns
unfolding stage_from
stage_from-append out s [] ns = refl
stage_from-append out s (m ∷ ms) ns = stage_from-append out (advance out s m) ms ns

abbrev pub is_legal : Stage → Bool
is_legal broken = false
is_legal _ = true

-- How far a channel that was not freed got in each of its states.
abbrev pub fits : Bool → ChannelState → Stage → Bool
fits out ch_init fresh = true
fits true ch_wait offered = true
fits false ch_wait fresh = true
fits true ch_open offered = true
fits false ch_open taken = true
fits out ch_error ended = false
fits out ch_error broken = false
fits out ch_error _ = true
fits out ch_destroy ended = false
fits out ch_destroy broken = false
fits out ch_destroy _ = true
fits out st s = false

pub fits-init :
    (out : Bool) (st : ChannelState) (s : Stage)
    → is_init st ≡ true
    → fits out st s ≡ true
    → s ≡ fresh
fits-init true ch_init fresh a b = refl
fits-init false ch_init fresh a b = refl
fits-init out st s a b = cc

pub fits-wait :
    (out : Bool) (st : ChannelState) (s : Stage)
    → is_wait st ≡ true
    → fits out st s ≡ true
    → s ≡ (if out then offered else fresh)
fits-wait true ch_wait offered a b = refl
fits-wait false ch_wait fresh a b = refl
fits-wait out st s a b = cc

-- A message that is sent leaves an open channel as far as it is.
pub fits-send :
    (out : Bool) (st : ChannelState) (s : Stage) (m : ChannelSend)
    → is_open st ≡ true
    → fits out st s ≡ true
    → advance out s (Dispatch.channel_send m) ≡ s
fits-send true ch_open offered m a b = refl
fits-send false ch_open taken m a b = refl
fits-send out st s m a b = cc

pub fits-legal :
    (out : Bool) (st : ChannelState) (s : Stage) → fits out st s ≡ true → is_legal s ≡ true
fits-legal out st fresh a = refl
fits-legal out st offered a = refl
fits-legal out st taken a = refl
fits-legal out st ended a = refl
fits-legal true ch_error broken a = cc
fits-legal false ch_error broken a = cc
fits-legal out st broken a = cc

-- A channel that was not freed can be destroyed.
pub fits-destroy :
    (out : Bool) (st : ChannelState) (s : Stage) (m : ChannelDestroy)
    → fits out st s ≡ true
    → (advance out s (Dispatch.channel_destroy m) ≡ ended)
      × (fits out ch_destroy s ≡ true)
      × (fits out ch_error s ≡ true)
fits-destroy true st fresh m a = (refl, refl, refl)
fits-destroy false st fresh m a = (refl, refl, refl)
fits-destroy true st offered m a = (refl, refl, refl)
fits-destroy false st offered m a = (refl, refl, refl)
fits-destroy true st taken m a = (refl, refl, refl)
fits-destroy false st taken m a = (refl, refl, refl)
fits-destroy true ch_new ended m a = absurd (ground (arith, a))
fits-destroy out st s m a = absurd (ground (arith, a))

abbrev pub stage_of : {C : Type 0} → Channel C → Stage
stage_of chan = stage_from (is_outgoing chan.id) fresh chan.sent

pub record IsProper {C : Type 0} (chan : Channel C) : Type 0 where
  pub legal : is_legal (stage_of chan) ≡ true
  pub alive : chan.gone ≡ false → fits (is_outgoing chan.id) chan.state (stage_of chan) ≡ true

-- What does not touch what the protocol is about.
abbrev pub Same : {C : Type 0} → Channel C → Channel C → Type 0
Same chan done =
    (done.id ≡ chan.id)
    × (done.sent ≡ chan.sent)
    × (done.state ≡ chan.state)
    × (done.gone ≡ chan.gone)

pub Same-trans : {C : Type 0} (a b c : Channel C) → Same a b → Same b c → Same a c
Same-trans a b c p q = (q.0 ∙ p.0, q.1 ∙ p.1, q.2 ∙ p.2, q.3 ∙ p.3)

pub Same-IsProper :
    {C : Type 0} (chan done : Channel C) → Same chan done → IsProper chan → IsProper done
Same-IsProper chan done (i, s, t, g) h = record {
  legal = rw (i, s) (h.legal);
  alive = λ a. rw (i, s, t) (h.alive (sym g ∙ a));
}

pub written :
    {C : Type 0} (m : Message) (chan done : Channel C)
    → done.id ≡ chan.id
    → done.sent ≡ chan.sent ++ (m ∷ [])
    → stage_of done ≡ advance (is_outgoing chan.id) (stage_of chan) m
unfolding stage_from
written m chan done i s =
    rw (i, s) (stage_from-append (is_outgoing chan.id) fresh chan.sent (m ∷ []))

-- A message was written: how far the channel is then, and its state.
pub wrote-IsProper :
    {C : Type 0} (m : Message) (chan done : Channel C) (s : Stage)
    → done.id ≡ chan.id
    → done.sent ≡ chan.sent ++ (m ∷ [])
    → advance (is_outgoing chan.id) (stage_of chan) m ≡ s
    → is_legal s ≡ true
    → (done.gone ≡ false → fits (is_outgoing chan.id) done.state s ≡ true)
    → IsProper done
wrote-IsProper m chan done s i w e l f =
    let now : stage_of done ≡ s = written m chan done i w ∙ e in
    record { legal = rw now l; alive = λ g. rw (now, i) (f g) }

-- What a service may not do while it is given the messages that waited: destroy the channel, whose
-- queue the code still walks.
abbrev pub ends : {C : Type 0} → List (Talk C) → Bool
ends [] = false
ends (say type_ data_ encrypt_ ∷ ts) = ends ts
ends (pick ci ∷ ts) = ends ts
ends (offer cis ∷ ts) = ends ts
ends (end reason info ∷ ts) = true

abbrev pub has_waiting : List ChannelSend → Bool
has_waiting [] = false
has_waiting (msg ∷ msgs) = true

abbrev pub IsPatient : {C : Type 0} → Hooks C → Type 0
IsPatient {C} srvc =
    (type_ : ℕ) (data_ : Opaque) (chan : Channel C)
    → has_waiting chan.incoming_queue ≡ true
    → ends (recv_calls srvc.on_recv type_ data_ chan) ≡ false
