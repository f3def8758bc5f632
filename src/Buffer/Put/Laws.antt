-- ===== src/Buffer/Put/Laws.antt =====
-- What the put buffer does to the bytes written so far.
use meanwhile.Base.{
  Bool, true, false, suc_not_zero, ℕ, zero, suc, ◌+◌, ◌-◌, ◌*◌, ◌^◌, ◌≤◌, ◌<◌, ◌≡◌, refl, ap, none,
  some, List, [], ◌∷◌, ◌++◌, map, append_assoc, append-nil, arith, ltb, ◌==◌, if◌then◌else◌,
  gsize_sub, gsize_double, gsize_sub_le, drop, length, length-append, length-drop, drop-drop,
  length-map, length-replicate, take-append, Bool-cases, inl, inr,
}
use native.Mathlib.Nat.{pow-suc}
use meanwhile.Buffer.Put.{
  PutBuffer, Put, Cell, ◌>>◌, blit, grow, grow_rounds, ensure_buffer, copy_in, poke, take_rem,
  append_bytes, put_buffer_write, copy_old, g_malloc, skip, put_if,
}

-- A buffer that holds `xs` and has the cells of `spare` left.
abbrev pub filled : List ℕ → List Cell → PutBuffer
filled xs spare = record {
  buf = map some xs ++ spare;
  len = length xs + length spare;
  ptr = length xs;
  rem = length spare;
}

-- The amount of data up to which no gsize overflows.
abbrev pub max_wire : ℕ
max_wire = 2 ^ 62

pow_double : (len fuel : ℕ) → len * 2 ^ suc fuel ≡ len * 2 * 2 ^ fuel
pow_double len fuel = rw pow-suc (omega arith)

double_small : (len : ℕ) → len ≤ max_wire → gsize_double len ≡ len * 2
double_small len h = omega arith

-- The doubling loop from a length that is positive and not below what is used, where so many
-- doublings are enough for what is needed, and this is at most max_wire: the length that it ends
-- with has the room.
pub grow_room :
    (fuel len used needed : ℕ)
    → used + needed ≤ max_wire
    → 0 < len
    → used ≤ len
    → used + needed ≤ len * 2 ^ fuel
    → used + needed ≤ grow fuel len used needed
unfolding grow
grow_room zero len used needed small pos hu enough = omega arith
grow_room (suc fuel) len used needed small pos hu enough =
    rw (gsize_sub_le len used hu) (elim (Bool-cases (ltb (len - used) needed)) [
      | inl more ↦ rw more (
          let short : len < used + needed = ground arith in
          rw (double_small len (omega arith)) (
            grow_room fuel (len * 2) used needed small (omega arith) (omega arith)
              (omega (arith, pow_double len fuel))))
      | inr done ↦ rw done (ground arith)
    ])

blit_at :
    (xs bytes : List ℕ) (spare : List Cell)
    → length bytes ≤ length spare
    → blit (map some xs ++ spare) (length xs) bytes
      ≡ map some (xs ++ bytes) ++ drop (length bytes) spare
unfolding blit
blit_at (x ∷ xs) bytes spare h = ap (◌∷◌ (some x)) (blit_at xs bytes spare h)
blit_at [] [] [] h = refl
blit_at [] [] (c ∷ spare) h = refl
blit_at [] (v ∷ bytes) [] h = absurd (omega arith)
blit_at [] (v ∷ bytes) (c ∷ spare) h = ap (◌∷◌ (some v)) (blit_at [] bytes spare (omega arith))

copy_old_lem :
    (xs : List ℕ) (spare fresh : List Cell)
    → copy_old fresh (length xs) (map some xs ++ spare) ≡ map some xs ++ drop (length xs) fresh
copy_old_lem [] [] fresh = refl
copy_old_lem [] (c ∷ spare) fresh = refl
copy_old_lem (x ∷ xs) spare fresh =
    ap (λ (t : List Cell). some x ∷ (t ++ drop (suc (length xs)) fresh))
      (rw (← length-map some xs) (take-append (map some xs) spare))

grown-filled :
    (xs : List ℕ) (spare : List Cell) (len : ℕ)
    → length xs ≤ len
    → ◌≡◌ {A = PutBuffer}
        (record {
          buf = copy_old (g_malloc len) (length xs) (map some xs ++ spare);
          len = len;
          ptr = length xs;
          rem = gsize_sub len (length xs);
        })
        (filled xs (drop (length xs) (g_malloc len)))
grown-filled xs spare len h = ground (
  arith,
  copy_old_lem xs spare (g_malloc len),
  length-drop (length xs) (g_malloc len),
  length-replicate {A = Cell} len none,
)

-- The length that ensure_buffer starts to double from.
abbrev start_len : List ℕ → List Cell → ℕ
start_len xs spare = if length xs + length spare == 0 then 1024 else length xs + length spare

used_lem : (x s : ℕ) → gsize_sub (x + s) s ≡ x
used_lem x s = ground arith

-- ensure_buffer on a buffer that holds `xs`, up to max_wire bytes with what is needed: the buffer
-- still holds `xs` and has room for at least `needed` more.
pub ensure_buffer-filled :
    (xs : List ℕ) (spare : List Cell) (needed : ℕ)
    → length xs + needed ≤ max_wire
    → (spare' : List Cell) × (ensure_buffer needed (filled xs spare) ≡ filled xs spare')
      × (needed ≤ length spare')
unfolding ensure_buffer
ensure_buffer-filled xs spare needed small = elim (Bool-cases (ltb (length spare) needed)) [
  | inr room ↦ (spare, rw room, ground arith)
  | inl short ↦
      let len = grow grow_rounds (start_len xs spare) (length xs) needed in
      let fits : length xs + needed ≤ len =
        grow_room grow_rounds (start_len xs spare) (length xs) needed small (ground arith)
          (ground arith) (ground arith) in
      (
        drop (length xs) (g_malloc len),
        rw (short, used_lem (length xs) (length spare)) (grown-filled xs spare len (omega arith)),
        rw (length-drop (length xs) (g_malloc len), length-replicate {A = Cell} len none)
            (omega arith),
      )
]

-- As `filled`, between the stores and the update of `rem`.
abbrev part : List ℕ → List Cell → ℕ → PutBuffer
part xs spare rem = record {
  buf = map some xs ++ spare;
  len = length xs + length spare;
  ptr = length xs;
  rem = rem;
}

-- `f` stores `bytes` at the write position, given the room, and leaves `rem`.
pub record Stores (f : Put) (bytes : List ℕ) : Type 0 where
  pub run :
      (xs : List ℕ) (spare : List Cell) (rem : ℕ)
      → length bytes ≤ length spare
      → f (part xs spare rem) ≡ part (xs ++ bytes) (drop (length bytes) spare) rem

pub copy_in-Stores : (bytes : List ℕ) → Stores (copy_in bytes) bytes
unfolding copy_in
copy_in-Stores bytes = record {
  run = λ xs spare rem h.
      ground
        (arith, blit_at xs bytes spare h, length-append xs bytes, length-drop (length bytes) spare);
}

pub poke-Stores : (v : ℕ) → Stores (poke v) (v ∷ [])
unfolding poke
poke-Stores v = copy_in-Stores (v ∷ [])

pub Stores->> :
    {f g : Put} {us vs : List ℕ} → Stores f us → Stores g vs → Stores (f >> g) (us ++ vs)
unfolding ◌>>◌
Stores->> {f} {g} {us} {vs} sf sg = record {
  run = λ xs spare rem h. rw (
    sf.run xs spare rem (omega (arith, length-append us vs)),
    sg.run (xs ++ us) (drop (length us) spare) rem
        (omega (arith, length-append us vs, length-drop (length us) spare)),
    append_assoc,
    drop-drop (length us) (length vs) spare,
    length-append us vs,
  );
}

-- `f` puts `bytes` behind what the buffer holds, and changes nothing of that.
pub record Writes (f : Put) (bytes : List ℕ) : Type 0 where
  pub run :
      (xs : List ℕ) (spare : List Cell)
      → length xs + length bytes ≤ max_wire
      → (spare' : List Cell) × (f (filled xs spare) ≡ filled (xs ++ bytes) spare')

-- ensure_buffer, the stores and the update of `rem`, the shape of every writer.
pub store-Writes :
    {f : Put} {bytes : List ℕ}
    → Stores f bytes
    → Writes (ensure_buffer (length bytes) >> (f >> take_rem (length bytes))) bytes
unfolding ◌>>◌ take_rem
store-Writes {f} {bytes} st = record {
  run = λ xs spare small.
      let (spare', made, room) = ensure_buffer-filled xs spare (length bytes) small in
      (
        drop (length bytes) spare',
        rw (made, st.run xs spare' (length spare') room)
            (ground (arith, length-drop (length bytes) spare')),
      );
}

pub append_bytes-Writes : (bytes : List ℕ) → Writes (append_bytes bytes) bytes
unfolding append_bytes
append_bytes-Writes bytes = store-Writes (copy_in-Stores bytes)

pub skip-Writes : Writes skip []
skip-Writes = record { run = λ xs spare small. (spare, rw append-nil) }

pub Writes->> :
    {f g : Put} {us vs : List ℕ} → Writes f us → Writes g vs → Writes (f >> g) (us ++ vs)
unfolding ◌>>◌
Writes->> {f} {g} {us} {vs} wf wg = record {
  run = λ xs spare small.
      let (mid, first) = wf.run xs spare (omega (arith, length-append us vs)) in
      let (last, second) =
        wg.run (xs ++ us) mid (omega (arith, length-append us vs, length-append xs us)) in
      (last, rw (first, second, append_assoc));
}

abbrev pub bytes_if : Bool → List ℕ → List ℕ
bytes_if c bytes = if c then bytes else []

pub put_if-Writes :
    {f : Put} {bytes : List ℕ} (c : Bool) → Writes f bytes → Writes (put_if c f) (bytes_if c bytes)
unfolding put_if
put_if-Writes true wf = wf
put_if-Writes false wf = skip-Writes

-- put_buffer_write puts exactly the bytes that it is given.
pub put_buffer_write-Writes : (bytes : List ℕ) → Writes (put_buffer_write bytes) bytes
unfolding put_buffer_write
put_buffer_write-Writes [] = skip-Writes
put_buffer_write-Writes (v ∷ bytes) =
    rw (suc_not_zero (length bytes)) (append_bytes-Writes (v ∷ bytes))
