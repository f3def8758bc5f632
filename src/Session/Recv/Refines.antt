-- ===== src/Session/Recv/Refines.antt =====
-- mwSession_recv implements the byte machine: the buffer always has the part of a message that the
-- machine has, whole messages are handled in order, and every byte is read.
use meanwhile.Base.{
  ℕ, zero, suc, ◌-◌, ◌%◌, ◌≤◌, ◌<◌, ◌≡◌, refl, sym, ap, ◌∙◌, arith, true, false, List, [], ◌∷◌,
  ◌++◌, drop, length, length-append, leb, ltb, ◌==◌, Bool-cases, inl, inr, suc_not_zero,
}
use meanwhile.Session.Recv.{
  Recv, session_buf_free, skip_series, session_recv_empty, session_recv, session_recv_cont,
  recv_rounds, session_recv_all,
}
use meanwhile.Session.Recv.Stream.{finish, feed, feed_all}
use meanwhile.Session.Recv.Laws.{target, IsPartial, size_of-append, feed_all-append}
use meanwhile.Session.Recv.Buffered.{buffered}
use meanwhile.Session.Recv.Rounds.{Took, Took-as, Took-cont}
use meanwhile.Session.Recv.Empty.{left_over, Took-empty}

abbrev pub joined : List (List ℕ) → List ℕ
joined [] = []
joined (b ∷ bs) = b ++ joined bs

module _ {W : Type 0} (handle : List ℕ → W → W) where
  -- A byte of 128 or more in front of a message is passed over.
  Took-skip :
      (c : ℕ) (b : List ℕ) (w : W) (r : Recv × W × ℕ)
      → leb 128 (c % 256) ≡ true
      → Took handle [] w b r
      → Took handle [] w (c ∷ b) r
  Took-skip c b w r high t =
      let skip : feed_all handle [] w (c ∷ t.front) ≡ feed_all handle [] w t.front =
        unfold feed_all feed in rw high refl in
      record {
        front = c ∷ t.front;
        back = t.back;
        split = ap (◌∷◌ c) t.split;
        some_taken = omega arith;
        part = rw skip t.part;
        gives = rw skip t.gives;
      }

  Took-last :
      (c : ℕ) (w : W)
      → leb 128 (c % 256) ≡ true
      → Took handle [] w (c ∷ []) (session_buf_free, w, 0)
  Took-last c w high =
      let skip : feed_all handle [] w (c ∷ []) ≡ ([], w) = unfold feed_all feed in rw high refl in
      record {
        front = c ∷ [];
        back = [];
        split = refl;
        some_taken = omega arith;
        part = rw skip (omega arith);
        gives = rw skip refl;
      }

  recv_skip :
      (c : ℕ) (b : List ℕ) (w : W)
      → leb 128 (c % 256) ≡ true
      → session_recv handle session_buf_free w (c ∷ b) ≡ session_recv handle session_buf_free w b
  unfolding session_recv skip_series
  recv_skip c b w high = rw high refl

  recv_nothing : (w : W) → session_recv handle session_buf_free w [] ≡ (session_buf_free, w, 0)
  unfolding session_recv skip_series
  recv_nothing w = refl

  recv_open :
      (c : ℕ) (b : List ℕ) (w : W)
      → leb 128 (c % 256) ≡ false
      → session_recv handle session_buf_free w (c ∷ b)
        ≡ session_recv_empty handle session_buf_free w (c ∷ b)
  unfolding session_recv skip_series
  recv_open c b w low = rw (low, suc_not_zero (length b)) refl

  Took-start :
      (c : ℕ) (b : List ℕ) (w : W)
      → Took handle [] w (c ∷ b) (session_recv handle session_buf_free w (c ∷ b))
  Took-start c [] w = elim (Bool-cases (leb 128 (c % 256))) [
    | inl high ↦ Took-as handle refl (recv_skip c [] w high ∙ recv_nothing w) (Took-last c w high)
    | inr low ↦ Took-as handle refl (recv_open c [] w low) (Took-empty handle c [] w low)
  ]
  Took-start c (d ∷ b) w = elim (Bool-cases (leb 128 (c % 256))) [
    | inl high ↦ Took-as handle refl (recv_skip c (d ∷ b) w high) (
        Took-skip c (d ∷ b) w (session_recv handle session_buf_free w (d ∷ b)) high
          (Took-start d b w))
    | inr low ↦ Took-as handle refl (recv_open c (d ∷ b) w low) (Took-empty handle c (d ∷ b) w low)
  ]

  recv_goes_on :
      (x : ℕ) (p : List ℕ) (c : ℕ) (b : List ℕ) (w : W)
      → session_recv handle (buffered (x ∷ p)) w (c ∷ b)
        ≡ session_recv_cont handle (buffered (x ∷ p)) w (c ∷ b)
  unfolding session_recv
  recv_goes_on x p c b w =
      let some : (target (x ∷ p) == 0) ≡ false = ground arith in
      let more : ltb 0 (target (x ∷ p)) ≡ true = ground arith in
      rw (some, more, suc_not_zero (length b)) refl

  took :
      (p : List ℕ) (c : ℕ) (b : List ℕ) (w : W)
      → IsPartial p
      → Took handle p w (c ∷ b) (session_recv handle (buffered p) w (c ∷ b))
  took [] c b w i = Took-start c b w
  took (x ∷ p) c b w i =
      Took-as handle refl (recv_goes_on x p c b w) (Took-cont handle x p (c ∷ b) w i (omega arith))

  one_round :
      (fuel : ℕ) (s : Recv) (w : W) (b : List ℕ)
      → 0 < length b
      → recv_rounds handle (suc fuel) s w b
        ≡ recv_rounds handle fuel
            (session_recv handle s w b).0
            (session_recv handle s w b).1
            (drop (length b - (session_recv handle s w b).2) b)
  unfolding recv_rounds
  one_round fuel s w b h = let some : (length b == 0) ≡ false = ground arith in rw some refl

  recv_rounds-feed_all :
      (fuel : ℕ) (p : List ℕ) (w : W) (b : List ℕ)
      → length b ≤ fuel
      → IsPartial p
      → let r = feed_all handle p w b in
        recv_rounds handle fuel (buffered p) w b ≡ (buffered r.0, r.1, [])
  unfolding recv_rounds
  recv_rounds-feed_all zero p w [] h i = unfold feed_all in refl
  recv_rounds-feed_all zero p w (c ∷ b) h i = absurd (omega arith)
  recv_rounds-feed_all (suc fuel) p w [] h i = unfold feed_all in refl
  recv_rounds-feed_all (suc fuel) p w (c ∷ b) h i =
      let t = took p c b w i in
      let r = feed_all handle p w t.front in
      let all : feed_all handle p w (c ∷ b) ≡ feed_all handle r.0 r.1 t.back =
        ap (feed_all handle p w) t.split ∙ feed_all-append handle p w t.front t.back in
      let fewer : length t.back ≤ fuel = omega (
        arith,
        ap (λ (l : List ℕ). length l) t.split,
        length-append t.front t.back,
        t.some_taken,
      ) in
      one_round fuel (buffered p) w (c ∷ b) (omega arith)
      ∙ ap
          (λ (k : Recv × W × ℕ).
            recv_rounds handle fuel k.0 k.1 (drop (length (c ∷ b) - k.2) (c ∷ b)))
          t.gives
      ∙ ap (recv_rounds handle fuel (buffered r.0) r.1) (left_over (c ∷ b) t.front t.back t.split)
      ∙ recv_rounds-feed_all fuel r.0 r.1 t.back fewer t.part
      ∙ ap (λ (k : List ℕ × W). (buffered k.0, k.1, [])) (sym all)

  -- mwSession_recv refines a machine that takes one byte after the other (feed_all): from any
  -- part `p` of a message that is buffered, and whatever handling a message does to the rest of
  -- the session, it leaves the same buffer and the same rest, and no byte unread.
  pub session_recv_all-feed_all :
      (p : List ℕ) (w : W) (b : List ℕ)
      → IsPartial p
      → let r = feed_all handle p w b in
        session_recv_all handle (buffered p) w b ≡ (buffered r.0, r.1, [])
  unfolding session_recv_all
  session_recv_all-feed_all p w b i = recv_rounds-feed_all (length b) p w b (omega arith) i

  feed-IsPartial : (p : List ℕ) (w : W) (c : ℕ) → IsPartial p → IsPartial (feed handle p w c).0
  unfolding feed finish
  feed-IsPartial [] w c i = ground arith
  feed-IsPartial (x ∷ p) w c i =
      ground (arith, length-append p (c ∷ []), size_of-append (x ∷ p) (c ∷ []))

  pub feed_all-IsPartial :
      (p : List ℕ) (w : W) (b : List ℕ) → IsPartial p → IsPartial (feed_all handle p w b).0
  unfolding feed_all
  feed_all-IsPartial p w [] i = i
  feed_all-IsPartial p w (c ∷ b) i =
      feed_all-IsPartial (feed handle p w c).0 (feed handle p w c).1 b (feed-IsPartial p w c i)

  -- mwSession_recv of two pieces at once, from any part of a message that is buffered, is the
  -- same as of the first piece and then of the second.
  pub session_recv_all-append :
      (p : List ℕ) (w : W) (xs ys : List ℕ)
      → IsPartial p
      → let r = session_recv_all handle (buffered p) w xs in
        session_recv_all handle (buffered p) w (xs ++ ys) ≡ session_recv_all handle r.0 r.1 ys
  session_recv_all-append p w xs ys i =
      let r = feed_all handle p w xs in
      session_recv_all-feed_all p w (xs ++ ys) i
      ∙ ap (λ (k : List ℕ × W). (buffered k.0, k.1, [])) (feed_all-append handle p w xs ys)
      ∙ sym (session_recv_all-feed_all r.0 r.1 ys (feed_all-IsPartial p w xs i))
      ∙ ap (λ (k : Recv × W × List ℕ). session_recv_all handle k.0 k.1 ys)
          (sym (session_recv_all-feed_all p w xs i))

  -- The calls of mwSession_recv for pieces that arrive one after the other.
  unfoldable pub recv_pieces : Recv → W → List (List ℕ) → Recv × W
  recv_pieces s w [] = (s, w)
  recv_pieces s w (b ∷ bs) = let r = session_recv_all handle s w b in recv_pieces r.0 r.1 bs

  pub recv_pieces-feed_all :
      (p : List ℕ) (w : W) (bs : List (List ℕ))
      → IsPartial p
      → let r = feed_all handle p w (joined bs) in
        recv_pieces (buffered p) w bs ≡ (buffered r.0, r.1)
  unfolding recv_pieces
  recv_pieces-feed_all p w [] i = unfold feed_all in refl
  recv_pieces-feed_all p w (b ∷ bs) i =
      let r = feed_all handle p w b in
      ap (λ (k : Recv × W × List ℕ). recv_pieces k.0 k.1 bs) (session_recv_all-feed_all p w b i)
      ∙ recv_pieces-feed_all r.0 r.1 bs (feed_all-IsPartial p w b i)
      ∙ ap (λ (k : List ℕ × W). (buffered k.0, k.1))
          (sym (feed_all-append handle p w b (joined bs)))
