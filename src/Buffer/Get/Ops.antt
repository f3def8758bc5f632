-- ===== src/Buffer/Get/Ops.antt =====
-- mwGetBuffer_read, mwGetBuffer_advance and mwGetBuffer_reset on a buffer in good order.
use meanwhile.Base.{
  ℕ, zero, suc, ◌+◌, ◌≤◌, ◌≡◌, refl, sym, ap, ◌∙◌, arith, Bool, false, List, [], ◌∷◌, ◌++◌,
  append_assoc, append-nil, take, drop, length, length-append, length-take, length-drop,
  take-append-drop, drop-append, ltb, if◌then◌else◌, gsize_sub, suc_not_zero, Bool-cases, inl, inr,
}
use meanwhile.Buffer.Get.{
  GetBuffer, ◌>>=◌, read_bytes, copy_out, drop_rem, get_buffer_read, get_buffer_advance,
  get_buffer_reset,
}
use meanwhile.Buffer.Get.Laws.{cursor}
use meanwhile.Buffer.Get.Safe.{IsValid}

short_take : (n : ℕ) (xs : List ℕ) → length xs ≤ n → take n xs ≡ xs
short_take zero [] h = refl
short_take zero (x ∷ xs) h = absurd (omega arith)
short_take (suc n) [] h = refl
short_take (suc n) (x ∷ xs) h = ap (◌∷◌ x) (short_take n xs (omega arith))

short_drop : (n : ℕ) (xs : List ℕ) → length xs ≤ n → drop n xs ≡ []
short_drop zero [] h = refl
short_drop zero (x ∷ xs) h = absurd (omega arith)
short_drop (suc n) [] h = refl
short_drop (suc n) (x ∷ xs) h = short_drop n xs (omega arith)

-- The count that read and advance settle on.
abbrev clipped : ℕ → List ℕ → ℕ
clipped n post = if ltb (length post) n then length post else n

take-clipped : (n : ℕ) (post : List ℕ) → take (clipped n post) post ≡ take n post
take-clipped n post = elim (Bool-cases (ltb (length post) n)) [
  | inl less ↦
      rw less (short_take (length post) post (omega arith) ∙ sym (short_take n post (ground arith)))
  | inr more ↦ rw more
]

drop-clipped : (n : ℕ) (post : List ℕ) → drop (clipped n post) post ≡ drop n post
drop-clipped n post = elim (Bool-cases (ltb (length post) n)) [
  | inl less ↦
      rw less (short_drop (length post) post (omega arith) ∙ sym (short_drop n post (ground arith)))
  | inr more ↦ rw more
]

clipped_le : (n : ℕ) (post : List ℕ) → clipped n post ≤ length post
clipped_le n post = ground arith

-- A jump of `k` bytes over what is there.
jump_cursor :
    (k : ℕ) (pre post : List ℕ) (w : Bool)
    → k ≤ length post
    → ◌≡◌ {A = GetBuffer}
        (record {
          buf = pre ++ post;
          len = length (pre ++ post);
          ptr = length pre + k;
          rem = gsize_sub (length post) k;
          wrap = w;
          error = false;
        })
        (cursor (pre ++ take k post) (drop k post) w)
jump_cursor k pre post w h = ground (
  arith,
  append_assoc pre (take k post) (drop k post),
  take-append-drop k post,
  length-append pre (take k post),
  length-take k post,
  length-drop k post,
)

-- mwGetBuffer_read on a buffer without an error gives the next `n` bytes, or as many as there
-- are, steps behind them and sets no error.
pub get_buffer_read-cursor :
    (n : ℕ) (pre post : List ℕ) (w : Bool)
    → get_buffer_read n (cursor pre post w)
      ≡ (take n post, cursor (pre ++ take n post) (drop n post) w)
unfolding get_buffer_read read_bytes copy_out drop_rem ◌>>=◌
get_buffer_read-cursor zero pre post w = rw append-nil
get_buffer_read-cursor (suc n) pre post w =
    let k = clipped (suc n) post in
    let whole : take k (drop (length pre) (pre ++ post)) ≡ take (suc n) post =
      ap (take k) (drop-append pre post) ∙ take-clipped (suc n) post in
    rw
      (
        suc_not_zero n,
        whole,
        jump_cursor k pre post w (clipped_le (suc n) post),
        take-clipped (suc n) post,
        drop-clipped (suc n) post,
      )
      refl

-- mwGetBuffer_advance on a buffer without an error steps over the next `n` bytes, or as many as
-- there are, and returns how many these are.
pub get_buffer_advance-cursor :
    (n : ℕ) (pre post : List ℕ) (w : Bool)
    → get_buffer_advance n (cursor pre post w)
      ≡ (length (take n post), cursor (pre ++ take n post) (drop n post) w)
unfolding get_buffer_advance
get_buffer_advance-cursor zero pre post w = rw append-nil
get_buffer_advance-cursor (suc n) pre post w =
    let k = clipped (suc n) post in
    let counted : k ≡ length (take (suc n) post) = ground (arith, length-take (suc n) post) in
    rw
      (
        suc_not_zero n,
        jump_cursor k pre post w (clipped_le (suc n) post),
        take-clipped (suc n) post,
        drop-clipped (suc n) post,
        counted,
      )
      refl

-- mwGetBuffer_reset on a buffer whose counts agree with its block makes the whole block readable
-- again and drops the error.
pub get_buffer_reset-cursor :
    (b : GetBuffer) → IsValid b → get_buffer_reset b ≡ cursor [] b.buf b.wrap
unfolding get_buffer_reset
get_buffer_reset-cursor b v = ground (arith, v.whole)
