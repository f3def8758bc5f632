-- ===== src/Channel/Set.antt =====
-- The set of a session's channels, struct mwChannelSet of src/channel.c.
pub mod Laws
use meanwhile.Base.{
  ℕ, zero, suc, ◌+◌, ◌%◌, ◌^◌, Bool, true, false, Option, none, some, List, [], ◌∷◌, ◌++◌, length,
  ◌==◌, if◌then◌else◌,
}
use meanwhile.Channel.{Channel, ch_init}
use meanwhile.Channel.Life.{new_channel}

-- `map` has a channel for each id, and `freed_channels` are those that were freed when they were taken from it.
pub record ChannelSet (C : Type 0) : Type 0 where
  pub map : List (ℕ × Channel C)
  pub counter : ℕ
  pub freed_channels : List (Channel C)

module _ {A : Type 0} where
  -- g_hash_table_lookup, and what stays when a key is removed.
  unfoldable pub lookup_id : ℕ → List (ℕ × A) → Option A
  lookup_id id [] = none
  lookup_id id (p ∷ ps) = let rest = lookup_id id ps in if p.0 == id then some p.1 else rest

  unfoldable pub without_id : ℕ → List (ℕ × A) → List (ℕ × A)
  without_id id [] = []
  without_id id (p ∷ ps) = let rest = without_id id ps in if p.0 == id then rest else p ∷ rest

  abbrev pub is_some : Option A → Bool
  is_some none = false
  is_some (some a) = true

  -- The loop of mwChannel_newOutgoing, id = ++cs->counter while a channel has this id, on fuel; it
  -- gives `none` when that is used up. The counter is a guint32.
  unfoldable pub next_free : ℕ → ℕ → List (ℕ × A) → Option ℕ
  next_free zero counter ps = none
  next_free (suc n) counter ps =
      let id = (counter + 1) % 2 ^ 32 in
      let rest = next_free n id ps in if is_some (lookup_id id ps) then rest else some id

module _ {C : Type 0} where
  abbrev pub channel_set_new : ChannelSet C
  channel_set_new = record { map = []; counter = 0; freed_channels = [] }

  -- mwChannel_find
  abbrev pub channel_find : ChannelSet C → ℕ → Option (Channel C)
  channel_find cs id = lookup_id id cs.map

  abbrev pub freed_value : Option (Channel C) → List (Channel C)
  freed_value none = []
  freed_value (some chan) = chan ∷ []

  -- g_hash_table_insert, which frees the channel that has the id already.
  unfoldable pub put_channel : Channel C → ChannelSet C → ChannelSet C
  put_channel chan cs = record cs {
    map = (chan.id, chan) ∷ without_id chan.id cs.map;
    freed_channels = cs.freed_channels ++ freed_value (lookup_id chan.id cs.map);
  }

  -- mwChannel_newIncoming
  unfoldable pub new_incoming : ℕ → ChannelSet C → ChannelSet C
  new_incoming id cs = put_channel (new_channel id) cs

  -- mwChannel_newOutgoing; `none` when the loop does not end.
  abbrev pub outgoing_with : Option ℕ → ChannelSet C → Option (ChannelSet C)
  outgoing_with none cs = none
  outgoing_with (some id) cs =
      some (put_channel (record (new_channel id) { state = ch_init }) (record cs { counter = id }))

  unfoldable pub new_outgoing : ChannelSet C → Option (ChannelSet C)
  new_outgoing cs = outgoing_with (next_free (suc (length cs.map)) cs.counter cs.map) cs
