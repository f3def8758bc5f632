-- ===== src/Basic/Nested/Laws.antt =====
-- What a finalized buffer holds.
use meanwhile.Base.{
  ℕ, ◌+◌, ◌≤◌, ◌≡◌, refl, ap, arith, true, false, some, List, [], ◌∷◌, ◌++◌, map, take, length,
  gsize_sub,
}
use meanwhile.Buffer.Opaque.{Opaque, opaque_bytes, block}
use meanwhile.Buffer.Put.{Put, Cell, put_buffer_new, put_buffer_finalize, bytes_of, data_of}
use meanwhile.Buffer.Put.Laws.{Writes, filled, max_wire}
use meanwhile.Buffer.Get.{get_buffer_new, get_buffer_wrap}
use meanwhile.Buffer.Get.Laws.{cursor}
use meanwhile.Basic.Writes.{opaque_holds-Writes}
use meanwhile.Basic.Wire.{wire_opaque, wire32}
use meanwhile.Basic.Nested.{nested}

take-bytes_of :
    (bytes : List ℕ) (spare : List Cell)
    → take (length bytes) (bytes_of (map some bytes ++ spare)) ≡ bytes
take-bytes_of [] spare = refl
take-bytes_of (v ∷ bytes) spare = ap (◌∷◌ v) (take-bytes_of bytes spare)

take-data_of :
    (bytes : List ℕ) (spare : List Cell)
    → take (length bytes) (block (data_of (map some bytes ++ spare))) ≡ bytes
take-data_of [] spare = refl
take-data_of (v ∷ bytes) spare = take-bytes_of (v ∷ bytes) spare

used_lem : (x s : ℕ) → gsize_sub (x + s) s ≡ x
used_lem x s = ground arith

-- The opaque has the length and the bytes that were written.
pub put_buffer_finalize-filled :
    (bytes : List ℕ) (spare : List Cell)
    → let o = put_buffer_finalize (filled bytes spare) in
      (o.len ≡ length bytes) × (opaque_bytes o ≡ bytes)
unfolding put_buffer_finalize
put_buffer_finalize-filled bytes spare = (
  used_lem (length bytes) (length spare),
  rw (used_lem (length bytes) (length spare)) (take-data_of bytes spare),
)

pub put_buffer_finalize-Writes :
    {f : Put} {bytes : List ℕ}
    → Writes f bytes
    → length bytes ≤ max_wire
    → let o = put_buffer_finalize (f put_buffer_new) in
      (o.len ≡ length bytes) × (opaque_bytes o ≡ bytes)
put_buffer_finalize-Writes {f} {bytes} wf small =
    let (spare, e) = wf.run [] [] (omega arith) in rw e (put_buffer_finalize-filled bytes spare)

pub length-wire_opaque : (bytes : List ℕ) → length (wire_opaque bytes) ≡ 4 + length bytes
unfolding wire_opaque wire32
length-wire_opaque bytes = omega arith

pub nested-Writes :
    {f : Put} {bytes : List ℕ} → Writes f bytes → Writes (nested f) (wire_opaque bytes)
unfolding nested
nested-Writes {f} {bytes} wf = record {
  run = λ xs spare small.
      let (e, h) = put_buffer_finalize-Writes wf (omega (arith, small, length-wire_opaque bytes)) in
      (opaque_holds-Writes (put_buffer_finalize (f put_buffer_new)) bytes e h).run xs spare small;
}

-- A get buffer over an opaque that holds `bytes`.
pub get_buffer_new-cursor :
    (o : Opaque) (bytes : List ℕ)
    → o.len ≡ length bytes
    → opaque_bytes o ≡ bytes
    → get_buffer_new (some o) ≡ cursor [] bytes false
unfolding get_buffer_new
get_buffer_new-cursor o [] e h = ground arith
get_buffer_new-cursor o (v ∷ bytes) e h = ground arith

pub get_buffer_wrap-cursor :
    (o : Opaque) (bytes : List ℕ)
    → o.len ≡ length bytes
    → opaque_bytes o ≡ bytes
    → get_buffer_wrap (some o) ≡ cursor [] bytes true
unfolding get_buffer_wrap
get_buffer_wrap-cursor o [] e h = ground arith
get_buffer_wrap-cursor o (v ∷ bytes) e h = ground arith
