-- ===== src/Session/Recv/Laws.antt =====
-- How the byte machine runs over a part of a message and over a whole one.
use meanwhile.Base.{
  ℕ, ◌+◌, ◌%◌, ◌≤◌, ◌<◌, ◌≡◌, refl, sym, ap, ◌∙◌, arith, false, List, [], ◌∷◌, ◌++◌, append_assoc,
  append-nil, drop, length, length-append, length-drop, leb, ltb, if◌then◌else◌, Bool-cases, inl,
  inr,
}
use mathlib.Core.Path.{subst}
use meanwhile.Session.Recv.{session_process}
use meanwhile.Session.Recv.Stream.{size_of, finish, feed, feed_all}

-- How many bytes are to be there before more is known.
abbrev pub target : List ℕ → ℕ
target p = if ltb (length p) 4 then 4 else size_of p + 4

abbrev pub IsPartial : List ℕ → Type 0
IsPartial p = length p < target p

abbrev pub IsWhole : List ℕ → Type 0
IsWhole q = length q ≡ size_of q + 4

pub size_of-append : (p b : List ℕ) → 4 ≤ length p → size_of (p ++ b) ≡ size_of p
size_of-append (x0 ∷ x1 ∷ x2 ∷ x3 ∷ p) b h = refl
size_of-append _ b h = absurd (omega arith)

partial_prefix : (p b : List ℕ) → IsPartial (p ++ b) → IsPartial p
partial_prefix p b h = elim (Bool-cases (ltb (length p) 4)) [
  | inl few ↦ ground arith
  | inr enough ↦ ground (arith, size_of-append p b (ground arith), length-append p b)
]

partial_of_whole : (p : List ℕ) (c : ℕ) (b : List ℕ) → IsWhole (p ++ (c ∷ b)) → IsPartial p
partial_of_whole p c b h = elim (Bool-cases (ltb (length p) 4)) [
  | inl few ↦ ground arith
  | inr enough ↦ ground (arith, size_of-append p (c ∷ b) (ground arith), length-append p (c ∷ b))
]

not_both : (p : List ℕ) → IsPartial p → IsWhole p → ⊥
not_both p i h = ground arith

-- A part of a message that more bytes may be added to: in front of a message only a byte below
-- 128 begins one.
abbrev pub IsOpen : List ℕ → List ℕ → Type 0
IsOpen (x ∷ p) b = Unit {0}
IsOpen [] (c ∷ b) = leb 128 (c % 256) ≡ false
IsOpen [] [] = Unit {0}

module _ {W : Type 0} (handle : List ℕ → W → W) where
  finish_partial : (q : List ℕ) (w : W) → IsPartial q → finish handle q w ≡ (q, w)
  unfolding finish
  finish_partial q w h = ground arith

  finish_whole :
      (q : List ℕ) (w : W)
      → IsWhole q
      → finish handle q w ≡ ([], session_process handle (drop 4 q) w)
  unfolding finish session_process
  finish_whole q w h = ground (arith, length-drop 4 q)

  fill_more :
      (x : ℕ) (p b : List ℕ) (w : W)
      → IsPartial ((x ∷ p) ++ b)
      → feed_all handle (x ∷ p) w b ≡ ((x ∷ p) ++ b, w)
  unfolding feed_all feed
  fill_more x p [] w h = rw append-nil
  fill_more x p (c ∷ b) w h =
      let whole : (x ∷ p) ++ (c ∷ b) ≡ (x ∷ (p ++ (c ∷ []))) ++ b =
        sym (append_assoc (x ∷ p) (c ∷ []) b) in
      let more : IsPartial ((x ∷ (p ++ (c ∷ []))) ++ b) = subst IsPartial whole h in
      rw
        (
          finish_partial (x ∷ (p ++ (c ∷ []))) w (partial_prefix (x ∷ (p ++ (c ∷ []))) b more),
          whole,
        )
        (fill_more x (p ++ (c ∷ [])) b w more)

  whole_more :
      (x : ℕ) (p : List ℕ) (c : ℕ) (b : List ℕ) (w : W)
      → IsWhole ((x ∷ p) ++ (c ∷ b))
      → feed_all handle (x ∷ p) w (c ∷ b)
        ≡ ([], session_process handle (drop 4 ((x ∷ p) ++ (c ∷ b))) w)
  unfolding feed_all feed
  whole_more x p c [] w h = finish_whole ((x ∷ p) ++ (c ∷ [])) w h
  whole_more x p c (d ∷ b) w h =
      let whole : (x ∷ p) ++ (c ∷ d ∷ b) ≡ (x ∷ (p ++ (c ∷ []))) ++ (d ∷ b) =
        sym (append_assoc (x ∷ p) (c ∷ []) (d ∷ b)) in
      let more : IsWhole ((x ∷ (p ++ (c ∷ []))) ++ (d ∷ b)) = subst IsWhole whole h in
      let first : feed_all handle (x ∷ p) w (c ∷ d ∷ b)
          ≡ feed_all handle (x ∷ (p ++ (c ∷ []))) w (d ∷ b) =
        rw
          (finish_partial (x ∷ (p ++ (c ∷ []))) w (partial_of_whole (x ∷ (p ++ (c ∷ []))) d b more))
          refl in
      first
      ∙ whole_more x (p ++ (c ∷ [])) d b w more
      ∙ ap (λ (t : List ℕ). ([], session_process handle (drop 4 t) w)) (sym whole)

  start :
      (c : ℕ) (b : List ℕ) (w : W)
      → leb 128 (c % 256) ≡ false
      → feed_all handle [] w (c ∷ b) ≡ feed_all handle (c ∷ []) w b
  unfolding feed_all feed
  start c b w h = rw (h, finish_partial (c ∷ []) w (omega arith)) refl

  pub feed_all-partial :
      (p b : List ℕ) (w : W) → IsOpen p b → IsPartial (p ++ b) → feed_all handle p w b ≡ (p ++ b, w)
  feed_all-partial (x ∷ p) b w s h = fill_more x p b w h
  feed_all-partial [] [] w s h = unfold feed_all in refl
  feed_all-partial [] (c ∷ b) w s h = start c b w s ∙ fill_more c [] b w h

  pub feed_all-whole :
      (p b : List ℕ) (w : W)
      → IsOpen p b
      → IsPartial p
      → IsWhole (p ++ b)
      → feed_all handle p w b ≡ ([], session_process handle (drop 4 (p ++ b)) w)
  feed_all-whole (x ∷ p) (c ∷ b) w s i h = whole_more x p c b w h
  feed_all-whole (x ∷ p) [] w s i h =
      absurd (not_both (x ∷ p) i (subst IsWhole (append-nil (x ∷ p)) h))
  feed_all-whole [] [] w s i h = absurd (omega arith)
  feed_all-whole [] (c ∷ d ∷ b) w s i h = start c (d ∷ b) w s ∙ whole_more c [] d b w h
  feed_all-whole [] (c ∷ []) w s i h = absurd (omega arith)

  pub feed_all-append :
      (p : List ℕ) (w : W) (xs ys : List ℕ)
      → feed_all handle p w (xs ++ ys)
        ≡ feed_all handle (feed_all handle p w xs).0 (feed_all handle p w xs).1 ys
  unfolding feed_all
  feed_all-append p w [] ys = refl
  feed_all-append p w (c ∷ xs) ys =
      feed_all-append (feed handle p w c).0 (feed handle p w c).1 xs ys
