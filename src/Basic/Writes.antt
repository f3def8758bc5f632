-- ===== src/Basic/Writes.antt =====
-- The writers of the basic types put the wire format behind what the buffer holds.
use meanwhile.Base.{
  ◌||◌, ℕ, ◌%◌, ◌^◌, ◌≤◌, ◌≡◌, refl, sym, ap, ◌∙◌, Bool, true, false, not, Option, none, some, List,
  [], ◌∷◌, ◌++◌, take, length, ◌==◌, arith, length-take, take_nil, suc_not_zero,
}
use mathlib.Core.Path.{subst, ap₂}
use meanwhile.Buffer.Opaque.{Opaque, opaque_bytes, opaque_of, block}
use meanwhile.Buffer.Put.{Put, put_if, append_bytes}
use meanwhile.Buffer.Put.Laws.{
  Writes, Writes->>, Stores->>, poke-Stores, store-Writes, append_bytes-Writes, put_if-Writes,
  skip-Writes,
}
use meanwhile.Basic.{
  is_null, Str, str_len, strlen, mw16_put, mw32_put, guint16_put, guint32_put, gboolean_put,
  string_put, opaque_put,
}
use meanwhile.Basic.Wire.{wire16, wire32, wire_bool, wire_str, wire_opaque, text, IsOpaque}

pub guint16_put-Writes : (v : ℕ) → Writes (guint16_put v) (wire16 v)
unfolding guint16_put mw16_put wire16
guint16_put-Writes v = store-Writes (Stores->> (poke-Stores _) (poke-Stores _))

pub guint32_put-Writes : (v : ℕ) → Writes (guint32_put v) (wire32 v)
unfolding guint32_put mw32_put wire32
guint32_put-Writes v = store-Writes (
    Stores->> (poke-Stores _)
      (Stores->> (poke-Stores _) (Stores->> (poke-Stores _) (poke-Stores _))))

pub gboolean_put-Writes : (v : Bool) → Writes (gboolean_put v) (wire_bool v)
unfolding gboolean_put wire_bool
gboolean_put-Writes v = store-Writes (poke-Stores _)

skip_if_none : (f : Put) → Writes (put_if (not (0 == 0)) f) []
unfolding put_if
skip_if_none f = skip-Writes

put_if_some :
    (bytes : List ℕ)
    → (length bytes == 0) ≡ false
    → Writes (put_if (not (length bytes == 0)) (append_bytes bytes)) bytes
put_if_some bytes e = rw e (put_if-Writes true (append_bytes-Writes bytes))

strlen-le : (cs : List ℕ) → strlen cs ≤ length cs
strlen-le [] = omega arith
strlen-le (c ∷ cs) = ground (arith, strlen-le cs)

pub length-take-strlen : (cs : List ℕ) → length (take (strlen cs) cs) ≡ strlen cs
length-take-strlen cs = omega (arith, length-take (strlen cs) cs, strlen-le cs)

-- A copy of bytes that is left out when there are none.
copy-Writes :
    (n : ℕ) (bytes : List ℕ)
    → length bytes ≡ n
    → Writes (put_if (not (n == 0)) (append_bytes bytes)) bytes
copy-Writes n [] e = rw (← e) (skip_if_none _)
copy-Writes n (v ∷ bytes) e = rw (← e) (put_if_some (v ∷ bytes) (suc_not_zero (length bytes)))

length-text : (s : Str) → length (text s) ≡ str_len s
length-text none = refl
length-text (some cs) = length-take-strlen cs

-- A string of any length: the copy has all of its text, the length field the low 16 bits.
pub string_put-Writes : (s : Str) → Writes (string_put s) (wire_str s)
unfolding string_put wire_str
string_put-Writes s = rw (length-text s) (
    Writes->> (guint16_put-Writes (str_len s % 2 ^ 16))
      (copy-Writes (str_len s) (text s) (length-text s)))

has_data :
    (o : Opaque) (bytes : List ℕ)
    → o.len ≡ length bytes
    → opaque_bytes o ≡ bytes
    → (o.len == 0 || not (is_null o.data_)) ≡ true
has_data o [] e h = ground arith
has_data o (v ∷ bytes) e h = some_data o.data_ v bytes h
  where
    some_data :
        (d : Option (List ℕ)) (v : ℕ) (bytes : List ℕ)
        → take o.len (block d) ≡ v ∷ bytes
        → (o.len == 0 || not (is_null d)) ≡ true
    some_data none v bytes k = cc (take_nil {A = ℕ} o.len)
    some_data (some xs) v bytes k = ground arith

-- An opaque that holds `bytes`.
pub opaque_holds-Writes :
    (o : Opaque) (bytes : List ℕ)
    → o.len ≡ length bytes
    → opaque_bytes o ≡ bytes
    → Writes (opaque_put (some o)) (wire_opaque bytes)
unfolding opaque_put wire_opaque
opaque_holds-Writes o bytes e h = rw (has_data o bytes e h) (
    put_if-Writes true (
      subst (Writes _) same (
        Writes->> (guint32_put-Writes (o.len % 2 ^ 32))
          (copy-Writes o.len (opaque_bytes o) (ap length h ∙ sym e)))))
  where
    same : wire32 (o.len % 2 ^ 32) ++ opaque_bytes o ≡ wire32 (length bytes % 2 ^ 32) ++ bytes
    same = ap₂ (λ (n : ℕ) (t : List ℕ). wire32 (n % 2 ^ 32) ++ t) e h

pub opaque_put-Writes :
    (o : Opaque) → IsOpaque o → Writes (opaque_put (some o)) (wire_opaque (opaque_bytes o))
opaque_put-Writes o h =
    opaque_holds-Writes o (opaque_bytes o) (opaque_len (opaque_bytes o) h.plain) refl
  where
    opaque_len : (bytes : List ℕ) → opaque_of bytes ≡ o → o.len ≡ length bytes
    opaque_len [] e = sym (ap (λ (p : Opaque). p.len) e)
    opaque_len (x ∷ xs) e = sym (ap (λ (p : Opaque). p.len) e)
