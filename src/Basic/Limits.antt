-- ===== src/Basic/Limits.antt =====
-- Where the basic types do not do what their users may expect: strings that are longer than their
-- length field can say, and peeking.
use meanwhile.Base.{
  ℕ, ◌%◌, ◌^◌, ◌≤◌, ◌<◌, ◌≡◌, sym, ap, ◌∙◌, arith, Bool, none, List, ◌++◌, append_assoc, take, drop,
  take-append-drop, length, length-take,
}
use meanwhile.Buffer.Get.Laws.{cursor, unless_error-Reads, Reads, Reads->>=}
use meanwhile.Buffer.Get.{GetBuffer}
use meanwhile.Basic.{Str, string_get, guint16_get, guint16_peek}
use meanwhile.Basic.Wire.{IsWord16, wire_str, wire16, text, str_of}
use meanwhile.Basic.Reads.{guint16_get-Reads, from16-wire16, str_rest}

string_get_seen :
    (n : ℕ) (seen : List ℕ)
    → n < 2 ^ 16
    → length seen ≡ n
    → Reads string_get (wire16 n ++ seen) (str_of seen)
unfolding string_get
string_get_seen n seen short fits =
    unless_error-Reads none (
      rw (← fits) (Reads->>= _ (guint16_get-Reads 0 (length seen) (rw fits short)) (str_rest seen)))

-- On the wire format of a string with a text of 2 ^ 16 bytes or more, mwString_get gives only as
-- many bytes as the low 16 bits of the length say, and leaves the others in front of what comes
-- next.
pub string_get_overflow :
    (s : Str) (pre rest : List ℕ) (w : Bool)
    → 2 ^ 16 ≤ length (text s)
    → let n = length (text s) % 2 ^ 16 in
      let seen = take n (text s) in
      string_get (cursor pre (wire_str s ++ rest) w)
      ≡ (str_of seen, cursor (pre ++ (wire16 n ++ seen)) (drop n (text s) ++ rest) w)
unfolding wire_str
string_get_overflow s pre rest w long =
    let n = length (text s) % 2 ^ 16 in
    let seen = take n (text s) in
    let left = drop n (text s) in
    let whole : wire16 n ++ text s ≡ (wire16 n ++ seen) ++ left =
      ap (◌++◌ (wire16 n)) (sym (take-append-drop n (text s)))
      ∙ sym (append_assoc (wire16 n) seen left) in
    let short : n < 2 ^ 16 = omega arith in
    let fits : length seen ≡ n = omega (arith, length-take n (text s)) in
    let got : Reads string_get (wire16 n ++ seen) (str_of seen) =
      string_get_seen n seen short fits in
    rw (whole, append_assoc (wire16 n ++ seen) left rest) (got.run pre (left ++ rest) w)

-- After the number `v` was read from the head of a buffer, and the bytes `pre` behind it,
-- guint16_peek still shows `v`, while guint16_get gives the number `v'` that comes next. Both
-- numbers are below 2 ^ 16.
pub guint16_peek-get :
    (old v v' : ℕ) (pre rest : List ℕ) (w : Bool)
    → IsWord16 v
    → IsWord16 v'
    → let b = cursor (wire16 v ++ pre) (wire16 v' ++ rest) w in
      (guint16_peek b ≡ v) × ((guint16_get old b).0 ≡ v')
unfolding guint16_peek wire16
guint16_peek-get old v v' pre rest w h h' = (
  ground (arith, from16-wire16 v h),
  ap (λ (p : ℕ × GetBuffer). p.0) ((guint16_get-Reads old v' h').run (wire16 v ++ pre) rest w),
)
