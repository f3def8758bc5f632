-- ===== src/Resolve/Laws/Answers.antt =====
-- An answer calls the handler of its search, and the search is then gone.
use meanwhile.Base.{
  ℕ, ◌<◌, ◌^◌, ◌≡◌, refl, sym, ap, ◌∙◌, arith, true, false, Option, none, some, List, [], ◌∷◌, ◌++◌,
  append-nil, length, All, ◌==◌, Bool-cases, inl, inr, eq_refl,
}
use meanwhile.Buffer.Opaque.{Opaque, opaque_of, opaque_bytes-opaque_of, len-opaque_of}
use meanwhile.Buffer.Get.{GetBuffer, get_buffer_wrap}
use meanwhile.Buffer.Get.Laws.{cursor}
use meanwhile.Basic.{Str}
use meanwhile.Basic.Nested.Laws.{get_buffer_wrap-cursor}
use meanwhile.Basic.Wire.{IsWord32}
use meanwhile.Channel.{Channel}
use meanwhile.Channel.Life.{Context}
use meanwhile.Resolve.{
  ResolveResult, AnswerHead, load_results, answer_head_get, wire_results, wire_answer_head,
  IsResult,
}
use meanwhile.Resolve.Run.{
  Search, triggered, freed, Resolve, next_id, find_search, without_search, search_of, freed_of,
  remove_from, remove_search, insert_into, insert_search, results_recv, search_recv, answer_recv,
  recv, resolve_on, send_result_of, send_on, request_of, resolve,
}
use meanwhile.Resolve.Laws.{load_results-Reads, answer_head_get-Reads}

abbrev pub answer_head : ℕ → ℕ → List ResolveResult → AnswerHead
answer_head id code rs = record { id = id; code = code; count = length rs }

-- An answer on the wire.
abbrev pub wire_answer : ℕ → ℕ → List ResolveResult → List ℕ
wire_answer id code rs = wire_answer_head (answer_head id code rs) ++ wire_results rs

module _ {H : Type 0} where
  find-without :
      (id : ℕ) (ss ts : List (Search H))
      → find_search id (without_search id ss ++ ts) ≡ find_search id ts
  unfolding find_search without_search
  find-without id [] ts = refl
  find-without id (s ∷ ss) ts = elim (Bool-cases (s.id == id)) [
    | inl e ↦ rw e (find-without id ss ts)
    | inr e ↦ rw (e, e) (find-without id ss ts)
  ]

  without-twice :
      (id : ℕ) (ss : List (Search H)) (s : Search H)
      → s.id ≡ id
      → without_search id (without_search id ss ++ (s ∷ [])) ≡ without_search id ss
  unfolding without_search
  without-twice id [] s e = rw (e, eq_refl id) refl
  without-twice id (t ∷ ss) s e = elim (Bool-cases (t.id == id)) [
    | inl f ↦ rw f (without-twice id ss s e)
    | inr f ↦ rw (f, f, without-twice id ss s e) refl
  ]

  find_new : (s : Search H) → find_search s.id (s ∷ []) ≡ some s
  unfolding find_search
  find_new s = rw (eq_refl s.id) refl

module _ {C H : Type 0} where
  recv_answer :
      (u id code : ℕ) (rs : List ResolveResult) (srvc : Resolve C H) (ss : List (Search H))
      (s : Search H)
      → srvc.searches ≡ some ss
      → find_search id ss ≡ some s
      → IsWord32 id
      → IsWord32 code
      → IsWord32 (length rs)
      → All IsResult rs
      → recv u 2 (opaque_of (wire_answer id code rs)) srvc ≡ record srvc {
        searches = some (without_search id ss);
        events = (srvc.events ++ (triggered s.handler id code rs ∷ [])) ++ (freed s.handler ∷ []);
      }
  unfolding recv remove_search
  recv_answer u id code rs srvc ss s e f h k m g =
      let a = answer_head id code rs in
      let bytes = wire_answer id code rs in
      let start : get_buffer_wrap (some (opaque_of bytes)) ≡ cursor [] bytes true =
        get_buffer_wrap-cursor (opaque_of bytes) bytes (len-opaque_of bytes)
          (opaque_bytes-opaque_of bytes) in
      let after = cursor (wire_answer_head a) (wire_results rs) true in
      let head : answer_head_get u (get_buffer_wrap (some (opaque_of bytes))) ≡ (a, after) =
        ap (answer_head_get u) start
        ∙ (answer_head_get-Reads u a h k m).run [] (wire_results rs) true in
      let searched : search_of id srvc.searches ≡ some s = ap (search_of id) e ∙ f in
      let over = cursor (wire_answer_head a ++ wire_results rs) [] true in
      let loaded : load_results u (length rs) [] after ≡ (rs, over) =
        ap (λ (t : List ℕ). load_results u (length rs) [] (cursor (wire_answer_head a) t true))
          (sym (append-nil (wire_results rs)))
        ∙ (load_results-Reads u rs [] g).run (wire_answer_head a) [] true in
      let called = record srvc { events = srvc.events ++ (triggered s.handler id code rs ∷ []) } in
      ap (λ (p : AnswerHead × GetBuffer). answer_recv u p srvc) head
      ∙ ap (λ (o : Option (Search H)). search_recv u a after o srvc) searched
      ∙ ap (λ (p : List ResolveResult × GetBuffer). results_recv s a p srvc) loaded
      ∙ ap (λ (t : Option (List (Search H))). remove_from id t called) e
      ∙ ap
          (λ (o : Option (Search H)). record called {
            searches = some (without_search id ss);
            events = called.events ++ freed_of o;
          })
          f

pub next_id-IsWord32 : (c : ℕ) → c < 2 ^ 32 → IsWord32 (next_id 1 c).0
next_id-IsWord32 c h = elim (Bool-cases (c == 0)) [ inl e ↦ rw e (omega arith) | inr e ↦ rw e h ]

module _ {C H : Type 0} (con : Context C) where
  resolve_on-table :
      (o : Opaque) (s : Search H) (ch : Option (Channel C)) (srvc : Resolve C H)
      (ss : List (Search H))
      → srvc.searches ≡ some ss
      → let out = resolve_on con o s ch srvc in
        (out.0 == 0) ≡ false
        → (out.0 ≡ s.id) × (out.1.searches ≡ some (without_search s.id ss ++ (s ∷ [])))
  unfolding insert_search
  resolve_on-table o s none srvc ss e h = absurd (ground (arith, h))
  resolve_on-table o s (some chan) srvc ss e h =
      elim (Bool-cases (send_result_of con 2 o chan == 0)) [
        | inl r ↦
            let sent = record srvc { channel = some (send_on con 2 o chan) } in
            rw r (refl, ap (λ (t : Option (List (Search H))). (insert_into s t sent).searches) e)
        | inr r ↦
            let failed : (0 == 0) ≡ false = sym (rw r refl) ∙ h in absurd (ground (arith, failed))
      ]

  -- A service with a table of searches, whatever is in it, on which mwServiceResolve_resolve
  -- gives an id other than SEARCH_ERROR: when an answer with this id arrives next, well formed,
  -- the handler that was given is called with the code and the results of the answer, and freed,
  -- and its search is no longer in the table; the other searches and the rest of the service stay
  -- as they are. The counter is below 2 ^ 32.
  pub resolve_answered :
      (u : ℕ) (qs : List Str) (flags code : ℕ) (handler : H) (rs : List ResolveResult)
      (srvc : Resolve C H) (ss : List (Search H))
      → srvc.searches ≡ some ss
      → srvc.counter < 2 ^ 32
      → IsWord32 code
      → IsWord32 (length rs)
      → All IsResult rs
      → let out = resolve con qs flags handler srvc in
        (out.0 == 0) ≡ false
        → recv u 2 (opaque_of (wire_answer out.0 code rs)) out.1 ≡ record (out.1) {
          searches = some (without_search out.0 ss);
          events = (out.1.events ++ (triggered handler out.0 code rs ∷ [])) ++ (freed handler ∷ []);
        }
  unfolding resolve
  resolve_answered u [] flags code handler rs srvc ss e w k m g h = absurd (ground (arith, h))
  resolve_answered u (q ∷ qs) flags code handler rs srvc ss e w k m g h =
      let id = (next_id 1 srvc.counter).0 in
      let s : Search H = record { id = id; handler = handler } in
      let o = request_of id (q ∷ qs) flags in
      let counted = record srvc { counter = (next_id 1 srvc.counter).1 } in
      let out = resolve_on con o s srvc.channel counted in
      let (same, table) = resolve_on-table o s srvc.channel counted ss e h in
      let found : find_search id (without_search id ss ++ (s ∷ [])) ≡ some s =
        find-without id ss (s ∷ []) ∙ find_new s in
      let gone : without_search id (without_search id ss ++ (s ∷ [])) ≡ without_search id ss =
        without-twice id ss s refl in
      rw same (
        recv_answer u id code rs out.1 (without_search id ss ++ (s ∷ [])) s table found
          (next_id-IsWord32 srvc.counter w) k m g
        ∙ rw gone refl)
