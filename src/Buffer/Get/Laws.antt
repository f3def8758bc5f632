-- ===== src/Buffer/Get/Laws.antt =====
-- Readers on a buffer whose coming bytes are known.
use meanwhile.Base.{
  ℕ, ◌+◌, ◌≤◌, ◌≡◌, refl, ap, ◌∙◌, Bool, true, false, List, [], ◌∷◌, ◌++◌, append_assoc, append-nil,
  arith, ltb-false, length, length-append, get_or-append, take-append, drop-append,
}
use mathlib.Core.Path.{subst}
use meanwhile.Buffer.Get.{
  GetBuffer, Get, ◌>>=◌, pure, unless_error, check_buffer, checked, fetch, drop_rem, copy_out,
  read_bytes, branch,
}

-- A buffer in good order: `pre` is read, `post` is to come, and `rem` counts some number.
abbrev pub window : List ℕ → List ℕ → Bool → ℕ → GetBuffer
window pre post w r = record {
  buf = pre ++ post;
  len = length (pre ++ post);
  ptr = length pre;
  rem = r;
  wrap = w;
  error = false;
}

-- The same with `rem` in step with the bytes to come.
abbrev pub cursor : List ℕ → List ℕ → Bool → GetBuffer
cursor pre post w = window pre post w (length post)

-- `m` takes `bytes` off the front of whatever comes, and its result is `a`.
pub record Reads {A : Type 0} (m : Get A) (bytes : List ℕ) (a : A) : Type 0 where
  pub run :
      (pre rest : List ℕ) (w : Bool)
      → m (cursor pre (bytes ++ rest) w) ≡ (a, cursor (pre ++ bytes) rest w)

-- The same while `rem` waits for its update.
pub record Fetches {A : Type 0} (m : Get A) (bytes : List ℕ) (a : A) : Type 0 where
  pub run :
      (pre rest : List ℕ) (w : Bool) (r : ℕ)
      → m (window pre (bytes ++ rest) w r) ≡ (a, window (pre ++ bytes) rest w r)

module _ {A B : Type 0} where
  pub Reads->>= :
      {m : Get A} (f : A → Get B) {us vs : List ℕ} {a : A} {c : B}
      → Reads m us a
      → Reads (f a) vs c
      → Reads (m >>= f) (us ++ vs) c
  unfolding ◌>>=◌
  Reads->>= f {us} {vs} rm rf = record {
    run = λ pre rest w. rw (
      append_assoc us vs rest,
      rm.run pre (vs ++ rest) w,
      rf.run (pre ++ us) rest w,
      append_assoc pre us vs,
    );
  }

  -- The last step of a block, which reads nothing more.
  pub Reads-end :
      {m : Get A} (f : A → Get B) {us : List ℕ} {a : A} {c : B}
      → Reads m us a
      → Reads (f a) [] c
      → Reads (m >>= f) us c
  Reads-end f {us} rm rf = rw (← append-nil us) (Reads->>= f rm rf)

  pub Fetches->>= :
      {m : Get A} (f : A → Get B) {us vs : List ℕ} {a : A} {c : B}
      → Fetches m us a
      → Fetches (f a) vs c
      → Fetches (m >>= f) (us ++ vs) c
  unfolding ◌>>=◌
  Fetches->>= f {us} {vs} rm rf = record {
    run = λ pre rest w r. rw (
      append_assoc us vs rest,
      rm.run pre (vs ++ rest) w r,
      rf.run (pre ++ us) rest w r,
      append_assoc pre us vs,
    );
  }

check_buffer_pass :
    (pre post : List ℕ) (w : Bool) (needed : ℕ)
    → needed ≤ length post
    → check_buffer needed (cursor pre post w) ≡ cursor pre post w
unfolding check_buffer
check_buffer_pass pre post w needed h = rw (ltb-false (length post) needed h)

module _ {A : Type 0} where
  pub pure-Reads : (a : A) → Reads (pure a) [] a
  unfolding pure
  pure-Reads a = record { run = λ pre rest w. rw append-nil }

  pub pure-Fetches : (a : A) → Fetches (pure a) [] a
  unfolding pure
  pure-Fetches a = record { run = λ pre rest w r. rw append-nil }

  pub unless_error-Reads :
      {m : Get A} {bytes : List ℕ} {a : A} (old : A)
      → Reads m bytes a
      → Reads (unless_error old m) bytes a
  unfolding unless_error
  unless_error-Reads old rm = record { run = rm.run }

  pub branch-true-Reads :
      {c : Bool} {m : Get A} (k : Get A) {bytes : List ℕ} {a : A}
      → c ≡ true
      → Reads m bytes a
      → Reads (branch c m k) bytes a
  unfolding branch
  branch-true-Reads k e rm = rw e rm

  pub branch-false-Reads :
      {c : Bool} {k : Get A} (m : Get A) {bytes : List ℕ} {a : A}
      → c ≡ false
      → Reads k bytes a
      → Reads (branch c m k) bytes a
  unfolding branch
  branch-false-Reads m e rm = rw e rm

  pub checked-Reads :
      {m : Get A} {bytes : List ℕ} {a : A} (needed : ℕ) (old : A)
      → length bytes ≡ needed
      → Reads m bytes a
      → Reads (checked needed old m) bytes a
  unfolding checked unless_error
  checked-Reads {m} {bytes} needed old e rm = record {
    run = λ pre rest w.
        ap (unless_error old m)
          (check_buffer_pass pre (bytes ++ rest) w needed (omega (arith, length-append bytes rest)))
        ∙ rm.run pre rest w;
  }

pub fetch-Fetches : (x : ℕ) → Fetches fetch (x ∷ []) x
unfolding fetch
fetch-Fetches x = record {
  run = λ pre rest w r. ground (
    arith,
    get_or-append pre x rest 0,
    append_assoc pre (x ∷ []) rest,
    length-append pre (x ∷ []),
  );
}

pub copy_out-Fetches : (xs : List ℕ) → Fetches (copy_out (length xs)) xs xs
unfolding copy_out
copy_out-Fetches xs = record {
  run = λ pre rest w r. ground (
    arith,
    drop-append pre (xs ++ rest),
    take-append xs rest,
    append_assoc pre xs rest,
    length-append pre xs,
  );
}

drop_rem_end :
    {A : Type 0} (a : A) (n : ℕ) (pre rest : List ℕ) (w : Bool)
    → drop_rem n a (window pre rest w (n + length rest)) ≡ (a, cursor pre rest w)
unfolding drop_rem
drop_rem_end a n pre rest w = ground arith

-- The stores into the target, then the update of `rem`: the shape of every reader.
pub fetch-Reads :
    {A : Type 0} {m : Get A} {bytes : List ℕ} {a : A} (n : ℕ)
    → length bytes ≡ n
    → Fetches m bytes a
    → Reads (m >>= drop_rem n) bytes a
unfolding ◌>>=◌
fetch-Reads {m = m} {bytes = bytes} {a = a} n e fm = record {
  run = λ pre rest w.
      let sum : length (bytes ++ rest) ≡ n + length rest =
        omega (arith, length-append bytes rest) in
      rw (fm.run pre rest w (length (bytes ++ rest)), sum) (drop_rem_end a n (pre ++ bytes) rest w);
}

pub read_bytes-Reads : (xs : List ℕ) → Reads (read_bytes (length xs)) xs xs
unfolding read_bytes
read_bytes-Reads xs = fetch-Reads (length xs) refl (copy_out-Fetches xs)

-- A reader of the whole buffer.
pub Reads-all :
    {A : Type 0} {m : Get A} {bytes : List ℕ} {a : A} (w : Bool)
    → Reads m bytes a
    → m (cursor [] bytes w) ≡ (a, cursor bytes [] w)
Reads-all {m = m} {bytes = bytes} {a = a} w rm =
    subst (λ (t : List ℕ). m (cursor [] t w) ≡ (a, cursor bytes [] w)) (append-nil bytes)
      (rm.run [] [] w)
