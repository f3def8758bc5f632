-- ===== src/Witnesses/Lives.antt =====
-- A client with a channel of its own and one that comes in, with the RC2/128 cipher.
use meanwhile.Base.{
  ℕ, ◌≡◌, Bool, true, not, ◌&&◌, List, Option, none, some, [], ◌∷◌, ◌==◌, if◌then◌else◌, arith,
}
use meanwhile.Buffer.Opaque.{opaque_of}
use meanwhile.Message.Head.{message_head_zero}
use meanwhile.Message.Channel.{ChannelSend}
use meanwhile.Cipher.Rc2128.{cipher_new_rc2_128, new_instance_rc2_128}
use meanwhile.Cipher.Instance.{Instance, rc2_128, instance_ops, instance_decrypt}
use meanwhile.Channel.{Channel, ch_init, recv_send}
use meanwhile.Channel.Life.{
  Talk, say, end, talk, accept_it, Context, Hooks, new_channel, service_recv,
}
use meanwhile.Channel.Life.Accept.{call_once}
use meanwhile.Channel.Life.Receive.{recv_create}
use meanwhile.Channel.Life.Protocol.{has_waiting}
use meanwhile.Channel.Set.{ChannelSet, channel_find, new_outgoing}
use meanwhile.Channel.Set.Laws.{new_outgoing_lem}
use meanwhile.Witnesses.Numbers.{numbers}
use meanwhile.Witnesses.Whole.{request}

abbrev cipher : Option (Instance numbers)
cipher = some (rc2_128 (cipher_new_rc2_128 numbers (1 ∷ 7 ∷ [])) new_instance_rc2_128)

-- A client without services, whose messages are all sent.
abbrev pub bare : Context (Instance numbers)
bare = record {
  ops = instance_ops numbers [];
  new_instance = λ id. if id == 1 then cipher else none;
  service_at = λ _. none;
  send_result = λ _ _. 0;
  arrange = λ cis. cis;
}

-- A service that accepts what comes in, and answers what it is then given, or destroys the channel
-- when it is given a message of type 9 while none waits.
abbrev reply : ℕ → Bool → List (Talk (Instance numbers))
reply type_ waits =
    if type_ == 9 && not waits then end 0 none ∷ [] else say 6 (opaque_of (3 ∷ [])) true ∷ []

abbrev host : Hooks (Instance numbers)
host = record {
  on_recv = some (λ type_ data_ chan. reply type_ (has_waiting chan.incoming_queue));
  on_recv_create = some (λ msg chan. accept_it ∷ []);
  on_recv_accept = none;
  on_recv_destroy = none;
}

abbrev hosting : Context (Instance numbers)
hosting = record bare { service_at = λ type_. if type_ == 0x1000 then some host else none }

-- The channel that `request` makes, on which two bytes are sent, and for which a message arrives.
abbrev visitor : Channel (Instance numbers)
visitor = recv_create hosting request (new_channel 2147483649)

abbrev talked : Channel (Instance numbers)
talked = call_once hosting (talk (say 5 (opaque_of (1 ∷ 2 ∷ [])) true)) visitor

abbrev question : ChannelSend
question = record {
  head = record message_head_zero { type_ = 4; channel = 2147483649 };
  type_ = 7;
  data_ = opaque_of (8 ∷ []);
}

abbrev visited : Channel (Instance numbers)
visited = recv_send (instance_decrypt hosting.ops) (service_recv hosting) question talked

-- Two channels, of which the counter meets one as it starts over.
abbrev crowd : ChannelSet (Instance numbers)
crowd = record {
  map = (0, new_channel 0) ∷ (2147483649, new_channel 2147483649) ∷ [];
  counter = 4294967295;
  freed_channels = [];
}

new_outgoing_lem_example :
    (id : ℕ) × (done : ChannelSet (Instance numbers)) × ((new_outgoing crowd ≡ some done)
      × (channel_find crowd id ≡ none)
      × (channel_find done 2147483649 ≡ (
          if 2147483649 == id
          then some (record (new_channel id) { state = ch_init })
          else channel_find crowd 2147483649))
      × (done.freed_channels ≡ crowd.freed_channels))
new_outgoing_lem_example = new_outgoing_lem crowd 2147483649 (omega arith)
