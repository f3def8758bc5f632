-- ===== src/Channel/Life/Protocol/Reach.antt =====
-- The channels there can be, and their protocol.
use meanwhile.Base.{ℕ, ◌≡◌, false}
use meanwhile.Message.Channel.{ChannelCreate, ChannelAccept, ChannelDestroy, ChannelSend}
use meanwhile.Cipher.Instance.{instance_decrypt}
use meanwhile.Channel.{Channel, ch_init, recv_send}
use meanwhile.Channel.Life.{Call, Context, new_channel, service_recv}
use meanwhile.Channel.Life.Accept.{call_once}
use meanwhile.Channel.Life.Receive.{recv_create, recv_accept, recv_destroy}

-- What is done to a channel: a call of its owner, or a message that arrives for it.
pub data Step {C : Type 0} (con : Context C) : Channel C → Channel C → Type 0 where
  calls : {chan : Channel C} (c : Call C) → Step con chan (call_once con c chan)
  got_accept : {chan : Channel C} (msg : ChannelAccept) → Step con chan (recv_accept con msg chan)
  got_send :
      {chan : Channel C} (msg : ChannelSend)
      → Step con chan (recv_send (instance_decrypt con.ops) (service_recv con) msg chan)
  got_destroy :
      {chan : Channel C} (msg : ChannelDestroy) → Step con chan (recv_destroy con msg chan)

-- The channels there can be: one for a message that creates it, one that the client makes, and what
-- steps make of one that was not freed.
pub data Reached {C : Type 0} (con : Context C) : Channel C → Type 0 where
  incoming : (msg : ChannelCreate) → Reached con (recv_create con msg (new_channel msg.channel))
  outgoing : (id : ℕ) → Reached con (record (new_channel id) { state = ch_init })
  next : {a b : Channel C} → Reached con a → a.gone ≡ false → Step con a b → Reached con b
