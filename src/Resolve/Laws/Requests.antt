-- ===== src/Resolve/Laws/Requests.antt =====
-- What the resolve service sends for a search.
use meanwhile.Base.{
  ℕ, ◌<◌, ◌≤◌, ◌^◌, ◌≡◌, refl, ap, ◌∙◌, arith, true, false, Option, none, some, List, ◌∷◌, length,
  ◌==◌, Bool-cases, inl, inr,
}
use meanwhile.Buffer.Opaque.{Opaque, opaque_bytes}
use meanwhile.Buffer.Put.Laws.{max_wire}
use meanwhile.Basic.{Str}
use meanwhile.Basic.Nested.Laws.{put_buffer_finalize-Writes}
use meanwhile.Channel.{Channel}
use meanwhile.Channel.Life.{Context}
use meanwhile.Resolve.{wire_request}
use meanwhile.Resolve.Run.{
  Search, Resolve, next_id, insert_into, insert_search, send_result_of, send_on, request_of,
  resolve_on, resolve,
}
use meanwhile.Resolve.Laws.{request_put-Writes}

next_id_positive : (c : ℕ) → c < 2 ^ 32 → ((next_id 1 c).0 == 0) ≡ false
next_id_positive c h = elim (Bool-cases (c == 0)) [
  | inl e ↦ rw e (ground (arith, e))
  | inr e ↦ rw e e
]

module _ {C H : Type 0} (con : Context C) where
  insert-channel :
      (s : Search H) (t : Option (List (Search H))) (srvc : Resolve C H)
      → (insert_into s t srvc).channel ≡ srvc.channel
  insert-channel s none srvc = refl
  insert-channel s (some ss) srvc = refl

  sent_on :
      (o : Opaque) (s : Search H) (chan : Channel C) (srvc : Resolve C H)
      → (send_result_of con 2 o chan == 0) ≡ true
      → let out = resolve_on con o s (some chan) srvc in
        (out.0 ≡ s.id) × (out.1.channel ≡ some (send_on con 2 o chan))
  unfolding insert_search
  sent_on o s chan srvc r =
      let sent = record srvc { channel = some (send_on con 2 o chan) } in
      rw r (refl, insert-channel s srvc.searches sent)

  -- mwServiceResolve_resolve for one name or more, on a service with a channel, when
  -- mwChannel_send takes the request: it returns an id other than SEARCH_ERROR, the request with
  -- this id was given to the channel, and its bytes are those of the wire format, if these are at
  -- most max_wire. The counter is below 2 ^ 32.
  pub resolve_sent :
      (q : Str) (qs : List Str) (flags : ℕ) (handler : H) (srvc : Resolve C H) (chan : Channel C)
      → srvc.channel ≡ some chan
      → srvc.counter < 2 ^ 32
      → length (wire_request (next_id 1 srvc.counter).0 (q ∷ qs) flags) ≤ max_wire
      → (send_result_of con 2 (request_of (next_id 1 srvc.counter).0 (q ∷ qs) flags) chan == 0)
        ≡ true
      → let id = (next_id 1 srvc.counter).0 in
        let o = request_of id (q ∷ qs) flags in
        let out = resolve con (q ∷ qs) flags handler srvc in
        ((id == 0) ≡ false)
        × (opaque_bytes o ≡ wire_request id (q ∷ qs) flags)
        × (out.0 ≡ id)
        × (out.1.channel ≡ some (send_on con 2 o chan))
  unfolding resolve
  resolve_sent q qs flags handler srvc chan e w small r =
      let id = (next_id 1 srvc.counter).0 in
      let o = request_of id (q ∷ qs) flags in
      let s : Search H = record { id = id; handler = handler } in
      let counted = record srvc { counter = (next_id 1 srvc.counter).1 } in
      let given : resolve_on con o s srvc.channel counted ≡ resolve_on con o s (some chan) counted =
        ap (λ (c : Option (Channel C)). resolve_on con o s c counted) e in
      let (same, left) = sent_on o s chan counted r in
      (
        next_id_positive srvc.counter w,
        (put_buffer_finalize-Writes (request_put-Writes id (q ∷ qs) flags) small).1,
        ap (λ (p : ℕ × Resolve C H). p.0) given ∙ same,
        ap (λ (p : ℕ × Resolve C H). p.1.channel) given ∙ left,
      )
