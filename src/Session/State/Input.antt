-- ===== src/Session/State/Input.antt =====
-- The reception of bytes keeps to the diagram of the states too.
use meanwhile.Base.{
  ap, ◌∙◌, sym, [], ◌∷◌, leb, ltb, drop, ◌++◌, ◌%◌, ◌+◌, ℕ, length, ◌≡◌, refl, ◌∙◌, Option, none,
  some, List, ◌==◌, Bool-cases, inl, inr,
}
use meanwhile.Message.Dispatch.{Message, Uninit, message_get}
use meanwhile.Buffer.Get.{get_buffer_wrap}
use mathlib.Core.Path.{subst}
use meanwhile.Session.Recv.{Recv, session_recv_all}
use meanwhile.Session.Recv.Stream.{size_of, finish, feed, feed_all}
use meanwhile.Session.Recv.Buffered.{buffered}
use meanwhile.Session.Recv.Refines.{session_recv_all-feed_all, feed_all-IsPartial}
use meanwhile.Session.State.{Session, World}
use meanwhile.Session.State.Handle.{parsed_recv, handle, session_receive}
use meanwhile.Session.State.Steps.{IsSound}
use meanwhile.Session.State.Keeps.{message_recv-IsSound}

module _ (world : World) where
  handle-IsSound :
      (u : Uninit) (bytes : List ℕ) (s : Session) → IsSound s → IsSound (handle world u bytes s)
  unfolding handle
  handle-IsSound u bytes s h =
      parsed
        (message_get u
          (get_buffer_wrap (some (record { len = length bytes; data_ = some bytes })))).0
    where
      parsed : (o : Option Message) → IsSound (parsed_recv world o s)
      parsed none = h
      parsed (some m) = message_recv-IsSound world m s h

  finish-IsSound :
      (u : Uninit) (q : List ℕ) (s : Session) → IsSound s → IsSound (finish (handle world u) q s).1
  unfolding finish
  finish-IsSound u q s h = elim (Bool-cases (ltb (length q) 4)) [
    | inl few ↦ rw few h
    | inr enough ↦ elim (Bool-cases (size_of q == 0)) [
      | inl empty ↦ rw (enough, empty) h
      | inr some_ ↦ elim (Bool-cases (length q == size_of q + 4)) [
        | inl whole ↦ rw (enough, some_, whole) (handle-IsSound u (drop 4 q) s h)
        | inr part ↦ rw (enough, some_, part) h
      ]
    ]
  ]

  feed-IsSound :
      (u : Uninit) (p : List ℕ) (s : Session) (c : ℕ)
      → IsSound s
      → IsSound (feed (handle world u) p s c).1
  unfolding feed
  feed-IsSound u [] s c h = elim (Bool-cases (leb 128 (c % 256))) [
    | inl series ↦ rw series h
    | inr begins ↦ rw begins (finish-IsSound u (c ∷ []) s h)
  ]
  feed-IsSound u (x ∷ p) s c h = finish-IsSound u ((x ∷ p) ++ (c ∷ [])) s h

  feed_all-IsSound :
      (u : Uninit) (p : List ℕ) (s : Session) (b : List ℕ)
      → IsSound s
      → IsSound (feed_all (handle world u) p s b).1
  unfolding feed_all
  feed_all-IsSound u p s [] h = h
  feed_all-IsSound u p s (c ∷ b) h =
      let r = feed (handle world u) p s c in feed_all-IsSound u r.0 r.1 b (feed-IsSound u p s c h)

  pub session_receive-IsSound :
      (u : Uninit) (bytes : List ℕ) (s : Session)
      → IsSound s
      → IsSound (session_receive world u bytes s)
  unfolding session_receive
  session_receive-IsSound u bytes s h =
      let p = h.held.part in
      let f = feed_all (handle world u) p s bytes in
      let i : IsSound f.1 = feed_all-IsSound u p s bytes h in
      let same : session_recv_all (handle world u) s.buffer s bytes ≡ (buffered f.0, f.1, []) =
        ap (λ (r : Recv). session_recv_all (handle world u) r s bytes) h.held.here
        ∙ session_recv_all-feed_all (handle world u) p s bytes h.held.partly in
      subst (λ (r : Recv × Session × List ℕ). IsSound (record (r.1) { buffer = r.0 })) (sym same)
        (record {
          told = i.told;
          kept = i.kept;
          held = record {
            part = f.0;
            here = refl;
            partly = feed_all-IsPartial (handle world u) p s bytes h.held.partly;
          };
        })
