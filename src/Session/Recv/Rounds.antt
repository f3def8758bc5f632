-- ===== src/Session/Recv/Rounds.antt =====
-- One round of mwSession_recv takes some bytes off the front, at least one, and does with them what
-- the byte machine does.
use meanwhile.Base.{
  ℕ, ◌+◌, ◌-◌, ◌≤◌, ◌<◌, ◌≡◌, refl, sym, ap, ◌∙◌, arith, false, List, [], ◌∷◌, ◌++◌, append_assoc,
  append-nil, take, drop, length, length-append, length-take, length-drop, take-append-drop,
  take_all, ltb, ◌==◌, Bool-cases, inl, inr, gsize_sub_le, ltb-false, lt→ltb, drop-short,
}
use mathlib.Core.Path.{subst}
use meanwhile.Session.Recv.{Recv, session_buf_free, session_process, recv_body, session_recv_cont}
use meanwhile.Session.Recv.Stream.{size_of, feed_all}
use meanwhile.Session.Recv.Laws.{
  target, IsPartial, IsWhole, IsOpen, size_of-append, feed_all-partial, feed_all-whole,
}
use meanwhile.Session.Recv.Buffered.{
  buffered, peek_length-size_of, all_four, take_to, target_early, target_late, partial_more,
  buffered_more, body_partial, body-IsWhole, buffered_body,
}

module _ {W : Type 0} (handle : List ℕ → W → W) where
  -- What the branches give for a buffer with the bytes `q`.
  recv_body_less :
      (size b : List ℕ) (w : W)
      → length size ≡ 4
      → length b < size_of size
      → recv_body handle size b w
        ≡ (record { buf = size ++ b; buf_len = size_of size + 4; buf_used = length b + 4 }, w, 0)
  unfolding recv_body
  recv_body_less size b w four h =
      rw
        (
          peek_length-size_of size (omega arith),
          lt→ltb (length b) (size_of size) h,
          all_four size four,
        )
        refl

  recv_body_more :
      (size b : List ℕ) (w : W)
      → length size ≡ 4
      → size_of size ≤ length b
      → recv_body handle size b w ≡ (
        session_buf_free,
        session_process handle (take (size_of size) b) w,
        length b - size_of size,
      )
  unfolding recv_body
  recv_body_more size b w four h =
      rw (peek_length-size_of size (omega arith), ltb-false (length b) (size_of size) h) refl

  cont_less :
      (q : List ℕ) (t : ℕ) (b : List ℕ) (w : W)
      → length q ≤ t
      → length b < t - length q
      → session_recv_cont handle (record { buf = q; buf_len = t; buf_used = length q }) w b
        ≡ (record { buf = q ++ b; buf_len = t; buf_used = length q + length b }, w, 0)
  unfolding session_recv_cont
  cont_less q t b w le h =
      rw (gsize_sub_le t (length q) le, lt→ltb (length b) (t - length q) h, take_all q) refl

  cont_early :
      (q b : List ℕ) (w : W)
      → length q ≤ 4
      → 4 - length q ≤ length b
      → session_recv_cont handle (record { buf = q; buf_len = 4; buf_used = length q }) w b
        ≡ recv_body handle (q ++ take (4 - length q) b) (drop (4 - length q) b) w
  unfolding session_recv_cont
  cont_early q b w le h =
      rw (gsize_sub_le 4 (length q) le, ltb-false (length b) (4 - length q) h, take_all q) refl

  cont_late :
      (q : List ℕ) (z : ℕ) (b : List ℕ) (w : W)
      → 0 < z
      → 4 ≤ length q
      → length q ≤ z + 4
      → z + 4 - length q ≤ length b
      → session_recv_cont handle (record { buf = q; buf_len = z + 4; buf_used = length q }) w b ≡ (
        session_buf_free,
        session_process handle (drop 4 (q ++ take (z + 4 - length q) b)) w,
        length b - (z + 4 - length q),
      )
  unfolding session_recv_cont
  cont_late q z b w pos long le h =
      let x = z + 4 - length q in
      let whole : take (z + 4 - 4) (drop 4 (q ++ take x b)) ≡ drop 4 (q ++ take x b) =
        take_to (z + 4 - 4) (drop 4 (q ++ take x b)) (
          omega
            (arith, length-drop 4 (q ++ take x b), length-append q (take x b), length-take x b)) in
      let not_four : (z + 4 == 4) ≡ false = ground arith in
      rw
        (
          gsize_sub_le (z + 4) (length q) le,
          ltb-false (length b) (z + 4 - length q) h,
          take_all q,
          not_four,
          whole,
        )
        refl

  -- `r` is what the round gives that takes `front` and leaves `back`.
  pub record Took (p : List ℕ) (w : W) (b : List ℕ) (r : Recv × W × ℕ) : Type 0 where
    pub front : List ℕ
    pub back : List ℕ
    pub split : b ≡ front ++ back
    pub some_taken : 0 < length front
    pub part : IsPartial (feed_all handle p w front).0
    pub gives :
        r ≡ (buffered (feed_all handle p w front).0, (feed_all handle p w front).1, length back)

  -- All of `b` is buffered.
  pub Took-all :
      (p b : List ℕ) (w : W)
      → 0 < length b
      → IsOpen p b
      → IsPartial (p ++ b)
      → Took p w b (buffered (p ++ b), w, 0)
  Took-all p b w pos s h =
      let e = feed_all-partial handle p b w s h in
      record {
        front = b;
        back = [];
        split = sym (append-nil b);
        some_taken = pos;
        part = rw e h;
        gives = rw e refl;
      }

  -- `front` completes a message.
  pub Took-whole :
      (p front back : List ℕ) (w : W)
      → 0 < length front
      → IsOpen p front
      → IsPartial p
      → IsWhole (p ++ front)
      → Took p w
          (front ++ back)
          (session_buf_free, session_process handle (drop 4 (p ++ front)) w, length back)
  Took-whole p front back w pos s i h =
      let e = feed_all-whole handle p front w s i h in
      record {
        front = front;
        back = back;
        split = refl;
        some_taken = pos;
        part = rw e (omega arith);
        gives = rw e refl;
      }

  pub Took-as :
      {p b b' : List ℕ} {w : W} {r r' : Recv × W × ℕ}
      → b ≡ b'
      → r ≡ r'
      → Took p w b' r'
      → Took p w b r
  Took-as {p} {b} {b'} {w} {r} {r'} eb er t = record {
    front = t.front;
    back = t.back;
    split = eb ∙ t.split;
    some_taken = t.some_taken;
    part = t.part;
    gives = er ∙ t.gives;
  }

  pub after :
      {bytes bytes' : List ℕ} {n n' : ℕ} (w : W)
      → bytes ≡ bytes'
      → n ≡ n'
      → ◌≡◌ {A = Recv × W × ℕ}
          (session_buf_free, session_process handle bytes w, n)
          (session_buf_free, session_process handle bytes' w, n')
  after w eb en = rw (eb, en) refl

  -- The length became complete: `part` has the last of its four bytes.
  Took-body :
      (x : ℕ) (p part b : List ℕ) (w : W)
      → IsPartial (x ∷ p)
      → 0 < length part
      → length ((x ∷ p) ++ part) ≡ 4
      → Took (x ∷ p) w (part ++ b) (recv_body handle ((x ∷ p) ++ part) b w)
  Took-body x p part b w i pos four =
      let size = (x ∷ p) ++ part in
      let z = size_of size in
      elim (Bool-cases (ltb (length b) z)) [
        | inl less ↦
            Took-as refl
              (recv_body_less size b w four (ground arith)
                ∙ ap (λ (s : Recv). (s, w, 0)) (buffered_body x p part b four))
              (Took-all (x ∷ p) (part ++ b) w (omega (arith, length-append part b)) tt (
                subst IsPartial (append_assoc (x ∷ p) part b)
                  (body_partial size b four (ground arith))))
        | inr more ↦
            let body = take z b in
            let seen : (x ∷ p) ++ (part ++ body) ≡ size ++ body =
              sym (append_assoc (x ∷ p) part body) in
            let rest : drop 4 ((x ∷ p) ++ (part ++ body)) ≡ body =
              ap (drop 4) seen ∙ drop-short 4 size body four in
            Took-as
              (ap (◌++◌ part) (sym (take-append-drop z b))
                ∙ sym (append_assoc part body (drop z b)))
              (recv_body_more size b w four (ground arith)
                ∙ after w (sym rest) (sym (length-drop z b)))
              (Took-whole (x ∷ p) (part ++ body) (drop z b) w
                (omega (arith, length-append part body)) tt i
                (subst IsWhole (sym seen) (body-IsWhole size b four (ground arith))))
      ]

  pub Took-cont :
      (x : ℕ) (p b : List ℕ) (w : W)
      → IsPartial (x ∷ p)
      → 0 < length b
      → Took (x ∷ p) w b (session_recv_cont handle (buffered (x ∷ p)) w b)
  Took-cont x p b w i pos =
      let q = x ∷ p in
      elim (Bool-cases (ltb (length b) (target q - length q))) [
        | inl less ↦
            Took-as refl
              (cont_less q (target q) b w (omega arith) (ground arith)
                ∙ ap (λ (s : Recv). (s, w, 0)) (buffered_more x p b (ground arith)))
              (Took-all q b w pos tt (partial_more q b (ground arith)))
        | inr more ↦ elim (Bool-cases (ltb (length q) 4)) [
          | inl early ↦
              let k = 4 - length q in
              Took-as (sym (take-append-drop k b))
                (ap
                    (λ (t : ℕ).
                      session_recv_cont handle
                        (record { buf = q; buf_len = t; buf_used = length q }) w b)
                    (target_early q early)
                  ∙ cont_early q b w (ground arith) (ground arith))
                (Took-body x p (take k b) (drop k b) w i (ground (arith, length-take k b))
                  (ground (arith, length-append q (take k b), length-take k b)))
          | inr late ↦
              let z = size_of q in
              let k = z + 4 - length q in
              Took-as (sym (take-append-drop k b))
                (ap
                    (λ (t : ℕ).
                      session_recv_cont handle
                        (record { buf = q; buf_len = t; buf_used = length q }) w b)
                    (target_late q late)
                  ∙ cont_late q z b w (ground arith) (ground arith) (ground arith) (ground arith)
                  ∙ after w refl (sym (length-drop k b)))
                (Took-whole q (take k b) (drop k b) w (ground (arith, length-take k b)) tt i (
                  ground (
                    arith,
                    length-append q (take k b),
                    length-take k b,
                    size_of-append q (take k b),
                  )))
        ]
      ]
