-- ===== src/Buffer/Get/Safe.antt =====
-- Readers on any buffer, whatever it holds.
use meanwhile.Base.{
  ℕ, ◌+◌, ◌≤◌, ◌≡◌, refl, ap, ◌∙◌, Bool, true, false, arith, ltb, if◌then◌else◌, gsize_sub, length,
}
use meanwhile.Buffer.Get.{
  GetBuffer, Get, ◌>>=◌, pure, unless_error, check_buffer, checked, drop_rem, copy_out, read_bytes,
  branch,
}

-- `ptr` and `rem` are in step with the block, so `ptr` lies inside or at the end of it.
pub record IsValid (b : GetBuffer) : Type 0 where
  pub whole : length b.buf ≡ b.len
  pub place : b.ptr + b.rem ≡ b.len

-- What a reader may do to a buffer: move forward inside the block, and nothing after an error.
pub record Advances (b b' : GetBuffer) : Type 0 where
  pub valid : IsValid b → IsValid b'
  pub same : b'.buf ≡ b.buf
  pub forward : b.ptr ≤ b'.ptr
  pub stuck : b.error ≡ true → b' ≡ b

pub record IsReader {A : Type 0} (m : Get A) : Type 0 where
  pub run : (b : GetBuffer) → Advances b (m b).1

pub Advances-refl : (b : GetBuffer) → Advances b b
Advances-refl b = record { valid = λ v. v; same = refl; forward = omega arith; stuck = λ e. refl }

pub Advances-trans : {a b c : GetBuffer} → Advances a b → Advances b c → Advances a c
Advances-trans {a} {b} {c} p q = record {
  valid = λ v. q.valid (p.valid v);
  same = q.same ∙ p.same;
  forward = omega (arith, p.forward, q.forward);
  stuck = λ e. let back = p.stuck e in q.stuck (ap (λ (x : GetBuffer). x.error) back ∙ e) ∙ back;
}

-- `m` takes `n` bytes that are there.
abbrev pub jump : ℕ → GetBuffer → GetBuffer
jump n b = record b { ptr = b.ptr + n; rem = gsize_sub b.rem n }

pub record Jumps {A : Type 0} (m : Get A) (n : ℕ) : Type 0 where
  pub run : (b : GetBuffer) → (m b).1 ≡ jump n b

jump-Advances :
    (n : ℕ) (b : GetBuffer) → b.error ≡ false → ltb b.rem n ≡ false → Advances b (jump n b)
jump-Advances n b e h = record {
  valid = λ v. record { whole = v.whole; place = ground (arith, v.place) };
  same = refl;
  forward = omega arith;
  stuck = λ e'. cc;
}

module _ {A : Type 0} where
  pub pure-IsReader : (a : A) → IsReader (pure a)
  unfolding pure
  pure-IsReader a = record { run = Advances-refl }

  pub unless_error-IsReader : {m : Get A} (old : A) → IsReader m → IsReader (unless_error old m)
  unfolding unless_error
  unless_error-IsReader {m} old rm = record {
    run = λ b. elim b.error as (λ c. Advances b (if c then (old, b) else m b).1) [
      | true ↦ Advances-refl b
      | false ↦ rm.run b
    ];
  }

  pub branch-IsReader : {m k : Get A} (c : Bool) → IsReader m → IsReader k → IsReader (branch c m k)
  unfolding branch
  branch-IsReader true rm rk = rm
  branch-IsReader false rm rk = rk

pub IsReader->>= :
    {A B : Type 0} {m : Get A} (f : A → Get B)
    → IsReader m
    → ((x : A) → IsReader (f x))
    → IsReader (m >>= f)
unfolding ◌>>=◌
IsReader->>= {m = m} f rm rf = record {
  run = λ b. Advances-trans (rm.run b) ((rf (m b).0).run (m b).1);
}

-- check_buffer only sets the flag, and with it set nothing else happens.
flag-Advances : (b : GetBuffer) → b.error ≡ false → (t : Bool) → Advances b (record b { error = t })
flag-Advances b e t = record {
  valid = λ v. record { whole = v.whole; place = v.place };
  same = refl;
  forward = omega arith;
  stuck = λ e'. cc;
}

jump_unflagged :
    (n : ℕ) (b : GetBuffer)
    → b.error ≡ false
    → ltb b.rem n ≡ false
    → Advances b (jump n (record b { error = false }))
jump_unflagged n b e h =
    Advances-trans (flag-Advances b e false) (jump-Advances n (record b { error = false }) refl h)

pub unless_error_stop :
    {A : Type 0} (old : A) (m : Get A) (b : GetBuffer)
    → b.error ≡ true
    → unless_error old m b ≡ (old, b)
unfolding unless_error
unless_error_stop old m b e = ground arith

pub checked-IsReader :
    {A : Type 0} {m : Get A} {n : ℕ} (old : A) → Jumps m n → IsReader (checked n old m)
unfolding checked unless_error check_buffer
checked-IsReader {A} {m} {n} old jm = record { run = λ b. at b b.error refl }
  where
    tested :
        (b : GetBuffer) (t : Bool)
        → b.error ≡ false
        → ltb b.rem n ≡ t
        → Advances b (unless_error old m (record b { error = t })).1
    tested b true e h = flag-Advances b e true
    tested b false e h = rw (jm.run (record b { error = false })) (jump_unflagged n b e h)

    at :
        (b : GetBuffer) (c : Bool)
        → b.error ≡ c
        → Advances b (unless_error old m (if c then b else record b { error = ltb b.rem n })).1
    at b true e = rw (unless_error_stop old m b e) (Advances-refl b)
    at b false e = tested b (ltb b.rem n) e refl

pub read_bytes-Jumps : (n : ℕ) → Jumps (read_bytes n) n
unfolding read_bytes ◌>>=◌ drop_rem copy_out
read_bytes-Jumps n = record { run = λ b. refl }
