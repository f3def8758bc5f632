-- ===== src/Session/Recv/Buffered.antt =====
-- The input buffer for a part of a message, and how it grows.
use meanwhile.Base.{
  ℕ, ◌+◌, ◌≤◌, ◌<◌, ◌≡◌, refl, sym, ap, ◌∙◌, arith, true, false, List, [], ◌∷◌, ◌++◌, append_assoc,
  take, length, length-append, length-take, take_all, ltb,
}
use meanwhile.Buffer.Get.{get_buffer_wrap}
use meanwhile.Basic.{guint32_peek}
use meanwhile.Session.Recv.{Recv, session_buf_free, peek_length}
use meanwhile.Session.Recv.Stream.{size_of}
use meanwhile.Session.Recv.Laws.{target, IsPartial, IsWhole, size_of-append}

-- The buffer with the part `p` of a message.
abbrev pub buffered : List ℕ → Recv
buffered [] = session_buf_free
buffered (x ∷ p) = record { buf = x ∷ p; buf_len = target (x ∷ p); buf_used = length (x ∷ p) }

pub peek_length-size_of : (b : List ℕ) → 4 ≤ length b → peek_length b ≡ size_of b
unfolding guint32_peek get_buffer_wrap
peek_length-size_of (x0 ∷ x1 ∷ x2 ∷ x3 ∷ b) h = rw (take_all b) (ground arith)
peek_length-size_of _ h = absurd (omega arith)

pub all_four : (size : List ℕ) → length size ≡ 4 → take 4 size ≡ size
all_four size e = rw (← e) (take_all size)

pub take_to : (n : ℕ) (xs : List ℕ) → length xs ≡ n → take n xs ≡ xs
take_to n xs e = rw (← e) (take_all xs)

pub target_early : (q : List ℕ) → ltb (length q) 4 ≡ true → target q ≡ 4
target_early q h = rw h refl

pub target_late : (q : List ℕ) → ltb (length q) 4 ≡ false → target q ≡ size_of q + 4
target_late q h = rw h refl

target_more : (q b : List ℕ) → length q + length b < target q → target (q ++ b) ≡ target q
target_more q b h = ground (arith, length-append q b, size_of-append q b)

pub partial_more : (q b : List ℕ) → length q + length b < target q → IsPartial (q ++ b)
partial_more q b h = rw (target_more q b h) (omega (arith, length-append q b))

pub buffered_more :
    (x : ℕ) (p b : List ℕ)
    → length (x ∷ p) + length b < target (x ∷ p)
    → ◌≡◌ {A = Recv}
        (record {
          buf = (x ∷ p) ++ b;
          buf_len = target (x ∷ p);
          buf_used = length (x ∷ p) + length b;
        })
        (buffered ((x ∷ p) ++ b))
buffered_more x p b h =
    let same = target_more (x ∷ p) b h in
    let long = length-append (x ∷ p) b in ground (arith, same, long)

pub body_partial :
    (size b : List ℕ) → length size ≡ 4 → length b < size_of size → IsPartial (size ++ b)
body_partial size b four h =
    ground (arith, length-append size b, size_of-append size b (omega arith))

pub body-IsWhole :
    (size b : List ℕ)
    → length size ≡ 4
    → size_of size ≤ length b
    → IsWhole (size ++ take (size_of size) b)
body-IsWhole size b four h = omega (
  arith,
  length-append size (take (size_of size) b),
  length-take (size_of size) b,
  size_of-append size (take (size_of size) b) (omega arith),
)

-- Four bytes of a length and what follows, as a buffer.
pub buffered_body :
    (x : ℕ) (p part b : List ℕ)
    → length ((x ∷ p) ++ part) ≡ 4
    → ◌≡◌ {A = Recv}
        (record {
          buf = ((x ∷ p) ++ part) ++ b;
          buf_len = size_of ((x ∷ p) ++ part) + 4;
          buf_used = length b + 4;
        })
        (buffered ((x ∷ p) ++ (part ++ b)))
buffered_body x p part b four =
    let size = (x ∷ p) ++ part in
    let joined : size ++ b ≡ (x ∷ p) ++ (part ++ b) = append_assoc (x ∷ p) part b in
    let same : size_of ((x ∷ p) ++ (part ++ b)) ≡ size_of size =
      ap size_of (sym joined) ∙ size_of-append size b (omega arith) in
    let long : length ((x ∷ p) ++ (part ++ b)) ≡ length b + 4 =
      ap length (sym joined) ∙ omega (arith, length-append size b) in
    ground (arith, joined, same, long)
