-- ===== src/Session/Recv/Empty.antt =====
-- What mwSession_recv does when nothing is buffered: session_recv_empty.
use meanwhile.Base.{
  ℕ, ◌+◌, ◌-◌, ◌%◌, ◌≤◌, ◌<◌, ◌≡◌, refl, sym, ap, ◌∙◌, arith, false, List, [], ◌∷◌, ◌++◌,
  append_assoc, take, drop, length, length-append, length-take, length-drop, take-append-drop,
  drop-short, drop-append, leb, ltb, ◌==◌, Bool-cases, inl, inr, ltb-false, lt→ltb,
}
use meanwhile.Session.Recv.{Recv, session_buf_free, session_process, session_recv_empty}
use meanwhile.Session.Recv.Stream.{size_of}
use meanwhile.Session.Recv.Laws.{IsWhole, size_of-append}
use meanwhile.Session.Recv.Buffered.{buffered, peek_length-size_of}
use meanwhile.Session.Recv.Rounds.{Took, Took-all, Took-whole, Took-as, after}

-- A buffer with fewer than four bytes of a length, or with a message that is not whole.
buffered_few :
    (c : ℕ) (b : List ℕ)
    → length (c ∷ b) < 4
    → ◌≡◌ {A = Recv}
        (record { buf = c ∷ b; buf_len = 4; buf_used = length (c ∷ b) })
        (buffered (c ∷ b))
buffered_few c b h = ground arith

buffered_some :
    (c : ℕ) (b : List ℕ)
    → 4 ≤ length (c ∷ b)
    → ◌≡◌ {A = Recv}
        (record { buf = c ∷ b; buf_len = size_of (c ∷ b) + 4; buf_used = length (c ∷ b) })
        (buffered (c ∷ b))
buffered_some c b h = ground arith

-- A message at the front of `q`: its length, and `z` bytes.
front_split : (q : List ℕ) (z : ℕ) → q ≡ (take 4 q ++ take z (drop 4 q)) ++ drop z (drop 4 q)
front_split q z =
    sym (take-append-drop 4 q)
    ∙ ap (◌++◌ (take 4 q)) (sym (take-append-drop z (drop 4 q)))
    ∙ sym (append_assoc (take 4 q) (take z (drop 4 q)) (drop z (drop 4 q)))

front_rest : (q : List ℕ) (z : ℕ) → length q - 4 - z ≡ length (drop z (drop 4 q))
front_rest q z = omega (arith, length-drop z (drop 4 q), length-drop 4 q)

size_of-take : (q : List ℕ) → 4 ≤ length q → size_of (take 4 q) ≡ size_of q
size_of-take q h =
    sym (size_of-append (take 4 q) (drop 4 q) (omega (arith, length-take 4 q)))
    ∙ ap size_of (take-append-drop 4 q)

front-IsWhole :
    (q : List ℕ) → size_of q + 4 ≤ length q → IsWhole (take 4 q ++ take (size_of q) (drop 4 q))
front-IsWhole q h =
    let body = take (size_of q) (drop 4 q) in
    omega (
      arith,
      size_of-append (take 4 q) body (omega (arith, length-take 4 q)),
      size_of-take q (omega arith),
      length-append (take 4 q) body,
      length-take 4 q,
      length-take (size_of q) (drop 4 q),
      length-drop 4 q,
    )

pub left_over : (b front back : List ℕ) → b ≡ front ++ back → drop (length b - length back) b ≡ back
left_over b front back e =
    let n : length b - length back ≡ length front =
      omega (arith, ap (λ (l : List ℕ). length l) e, length-append front back) in
    rw n (ap (drop (length front)) e ∙ drop-append front back)

module _ {W : Type 0} (handle : List ℕ → W → W) where
  empty_few :
      (b : List ℕ) (w : W)
      → length b < 4
      → session_recv_empty handle session_buf_free w b
        ≡ (record { buf = b; buf_len = 4; buf_used = length b }, w, 0)
  unfolding session_recv_empty
  empty_few b w h = rw (lt→ltb (length b) 4 h) refl

  empty_part :
      (b : List ℕ) (w : W)
      → 4 ≤ length b
      → length b < size_of b + 4
      → session_recv_empty handle session_buf_free w b
        ≡ (record { buf = b; buf_len = size_of b + 4; buf_used = length b }, w, 0)
  unfolding session_recv_empty
  empty_part b w long h =
      let some : (size_of b == 0) ≡ false = ground arith in
      rw
        (
          ltb-false (length b) 4 long,
          peek_length-size_of b long,
          some,
          lt→ltb (length b) (size_of b + 4) h,
        )
        refl

  -- A message of no bytes is skipped, which is the same as handling it.
  empty_whole :
      (b : List ℕ) (w : W)
      → size_of b + 4 ≤ length b
      → session_recv_empty handle session_buf_free w b ≡ (
        session_buf_free,
        session_process handle (take (size_of b) (drop 4 b)) w,
        length b - 4 - size_of b,
      )
  unfolding session_recv_empty session_process
  empty_whole b w h = elim (Bool-cases (size_of b == 0)) [
    | inl none_there ↦
        let zero_size : size_of b ≡ 0 = ground arith in
        rw
          (
            ltb-false (length b) 4 (omega arith),
            peek_length-size_of b (omega arith),
            none_there,
            zero_size,
          )
          (ap (λ (n : ℕ). (session_buf_free, w, n)) (omega arith))
    | inr some ↦
        rw
          (
            ltb-false (length b) 4 (omega arith),
            peek_length-size_of b (omega arith),
            some,
            ltb-false (length b) (size_of b + 4) h,
          )
          refl
  ]

  pub Took-empty :
      (c : ℕ) (b : List ℕ) (w : W)
      → leb 128 (c % 256) ≡ false
      → Took handle [] w (c ∷ b) (session_recv_empty handle session_buf_free w (c ∷ b))
  Took-empty c b w low =
      let q = c ∷ b in
      elim (Bool-cases (ltb (length q) 4)) [
        | inl few ↦
            Took-as handle refl
              (empty_few q w (ground arith)
                ∙ ap (λ (s : Recv). (s, w, 0)) (buffered_few c b (ground arith)))
              (Took-all handle [] q w (omega arith) low (ground arith))
        | inr four ↦ elim (Bool-cases (ltb (length q) (size_of q + 4))) [
          | inl less ↦
              Took-as handle refl
                (empty_part q w (ground arith) (ground arith)
                  ∙ ap (λ (s : Recv). (s, w, 0)) (buffered_some c b (ground arith)))
                (Took-all handle [] q w (omega arith) low (ground arith))
          | inr more ↦
              let z = size_of q in
              let front = take 4 q ++ take z (drop 4 q) in
              let back = drop z (drop 4 q) in
              let split : q ≡ front ++ back = front_split q z in
              let rest : drop 4 front ≡ take z (drop 4 q) =
                drop-short 4 (take 4 q) (take z (drop 4 q)) (ground (arith, length-take 4 q)) in
              Took-as handle split
                (empty_whole q w (ground arith) ∙ after handle w (sym rest) (front_rest q z))
                (Took-whole handle [] front back w (omega arith) low (omega arith)
                  (front-IsWhole q (ground arith)))
        ]
      ]
