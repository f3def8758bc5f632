-- ===== src/Channel/Set/Laws.antt =====
-- A new outgoing channel gets an id that no channel of the set has.
use meanwhile.Base.{
  ℕ, zero, suc, ◌+◌, ◌%◌, ◌^◌, ◌<◌, ◌≤◌, ◌≡◌, refl, sym, ap, ◌∙◌, arith, true, false, Option, none,
  some, List, [], ◌∷◌, ◌++◌, append-nil, length, ◌==◌, if◌then◌else◌, Bool-cases, inl, inr,
}
use mathlib.Core.Option.{some-injective, some-ne-none}
use meanwhile.Channel.{Channel, ch_init}
use meanwhile.Channel.Life.{new_channel}
use meanwhile.Channel.Set.{
  ChannelSet, lookup_id, without_id, is_some, next_free, channel_find, freed_value, put_channel,
  outgoing_with, new_outgoing,
}

module _ {A : Type 0} where
  lookup-without :
      (id x : ℕ) (ps : List (ℕ × A))
      → (id == x) ≡ false
      → lookup_id id (without_id x ps) ≡ lookup_id id ps
  unfolding lookup_id without_id
  lookup-without id x [] h = refl
  lookup-without id x (p ∷ ps) h = elim (Bool-cases (p.0 == x)) [
    | inl e ↦
        let other : (p.0 == id) ≡ false = ground (arith, e, h) in
        rw (e, other) (lookup-without id x ps h)
    | inr e ↦ rw (e, lookup-without id x ps h) refl
  ]

  without-length : (x : ℕ) (ps : List (ℕ × A)) → length (without_id x ps) ≤ length ps
  unfolding without_id
  without-length x [] = omega arith
  without-length x (p ∷ ps) =
      let rest = without-length x ps in
      elim (Bool-cases (p.0 == x)) [ inl e ↦ rw e (omega arith) | inr e ↦ rw e (omega arith) ]

  without-shorter :
      (x : ℕ) (ps : List (ℕ × A))
      → is_some (lookup_id x ps) ≡ true
      → length (without_id x ps) < length ps
  unfolding lookup_id without_id
  without-shorter x [] h = absurd (ground (arith, h))
  without-shorter x (p ∷ ps) h = elim (Bool-cases (p.0 == x)) [
    | inl e ↦ let rest = without-length x ps in rw e (omega arith)
    | inr e ↦ let rest = without-shorter x ps (sym (rw e refl) ∙ h) in rw e (omega arith)
  ]

  -- An id that the loop does not come to again within its fuel does not matter.
  next_free-without :
      (n k x : ℕ) (ps : List (ℕ × A))
      → x < 2 ^ 32
      → k + n < 2 ^ 32
      → next_free n ((x + k) % 2 ^ 32) (without_id x ps) ≡ next_free n ((x + k) % 2 ^ 32) ps
  unfolding next_free
  next_free-without zero k x ps h s = refl
  next_free-without (suc n) k x ps h s =
      let step : ((x + k) % 2 ^ 32 + 1) % 2 ^ 32 ≡ (x + (k + 1)) % 2 ^ 32 = omega arith in
      let other : ((x + (k + 1)) % 2 ^ 32 == x) ≡ false = ground arith in
      rw
        (
          step,
          lookup-without ((x + (k + 1)) % 2 ^ 32) x ps other,
          next_free-without n (k + 1) x ps h (omega arith),
        )
        refl

  next_free_unused :
      (n c id : ℕ) (ps : List (ℕ × A))
      → next_free n c ps ≡ some id
      → is_some (lookup_id id ps) ≡ false
  unfolding next_free
  next_free_unused zero c id ps h = absurd (some-ne-none id (sym h))
  next_free_unused (suc n) c id ps h =
      elim (Bool-cases (is_some (lookup_id ((c + 1) % 2 ^ 32) ps))) [
        | inl e ↦ next_free_unused n ((c + 1) % 2 ^ 32) id ps (sym (rw e refl) ∙ h)
        | inr e ↦
            let same = some-injective ((c + 1) % 2 ^ 32) id (sym (rw e refl) ∙ h) in
            ap (λ (i : ℕ). is_some (lookup_id i ps)) (sym same) ∙ e
      ]

  -- One round more than there are channels is enough.
  next_free_ends :
      (n c : ℕ) (ps : List (ℕ × A))
      → length ps < n
      → n ≤ 2 ^ 32
      → (id : ℕ) × (next_free n c ps ≡ some id)
  unfolding next_free
  next_free_ends zero c ps h s = absurd (omega arith)
  next_free_ends (suc n) c ps h s =
      let x = (c + 1) % 2 ^ 32 in
      elim (Bool-cases (is_some (lookup_id x ps))) [
        | inr e ↦ (x, rw e refl)
        | inl e ↦
            let shorter = without-shorter x ps e in
            let (id, found) = next_free_ends n x (without_id x ps) (omega arith) (omega arith) in
            let again : (x + 0) % 2 ^ 32 ≡ x = omega arith in
            let same = next_free-without n 0 x ps (omega arith) (omega arith) in
            let same' : next_free n x (without_id x ps) ≡ next_free n x ps =
              ap (λ (i : ℕ). next_free n i (without_id x ps)) (sym again)
              ∙ same
              ∙ ap (λ (i : ℕ). next_free n i ps) again in
            (id, rw e (sym same' ∙ found))
      ]

  is_some-none : (o : Option A) → is_some o ≡ false → o ≡ none
  is_some-none none h = refl
  is_some-none (some a) h = absurd (ground (arith, h))

module _ {C : Type 0} where
  put_channel-find :
      (chan : Channel C) (cs : ChannelSet C) (j : ℕ)
      → channel_find (put_channel chan cs) j
        ≡ (if j == chan.id then some chan else channel_find cs j)
  unfolding put_channel lookup_id
  put_channel-find chan cs j = elim (Bool-cases (j == chan.id)) [
    | inl e ↦ let same : (chan.id == j) ≡ true = ground (arith, e) in rw (e, same) refl
    | inr e ↦
        let other : (chan.id == j) ≡ false = ground (arith, e) in
        rw (e, other) (lookup-without j chan.id cs.map e)
  ]

  -- mwChannel_newOutgoing on a set of fewer than 2 ^ 32 channels: its loop ends, and the channel
  -- has an id that none of the set has; the set then finds it under this id, in the state INIT,
  -- and under any other id `j` what it found before; no channel is freed.
  pub new_outgoing_lem :
      (cs : ChannelSet C) (j : ℕ)
      → length cs.map < 2 ^ 32
      → (id : ℕ) × (done : ChannelSet C) × ((new_outgoing cs ≡ some done)
          × (channel_find cs id ≡ none)
          × (channel_find done j ≡ (
              if j == id
              then some (record (new_channel id) { state = ch_init })
              else channel_find cs j))
          × (done.freed_channels ≡ cs.freed_channels))
  unfolding new_outgoing put_channel
  new_outgoing_lem cs j h =
      let (id, found) =
        next_free_ends (suc (length cs.map)) cs.counter cs.map (omega arith) (omega arith) in
      let unused =
        is_some-none (lookup_id id cs.map)
          (next_free_unused (suc (length cs.map)) cs.counter id cs.map found) in
      let chan : Channel C = record (new_channel id) { state = ch_init } in
      let counted = record cs { counter = id } in
      (
        id,
        put_channel chan counted,
        (
          ap (λ (o : Option ℕ). outgoing_with o cs) found,
          unused,
          put_channel-find chan counted j,
          ap (λ (o : Option (Channel C)). cs.freed_channels ++ freed_value o) unused
              ∙ append-nil cs.freed_channels,
        ),
      )
