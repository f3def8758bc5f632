-- ===== src/Base/Bits.antt =====
-- bit_and and bit_xor at variables: by one binary digit at a time.
use Prim.Native.Nat.{
  ℕ, zero, suc, ◌+◌, ◌*◌, ◌/◌, ◌%◌, ◌^◌, ◌≤◌, ◌<◌, min, differ, digits, bit_and, bit_xor,
  bit_and-bitwise, bit_xor-bitwise,
}
use mathlib.Core.Path.{◌≡◌, refl, ap, sym, ◌∙◌}
use native.Mathlib.Omega.{arith}
use native.Mathlib.Nat.{pow-suc, mod-lt, mod-eq_of_lt, div-add-mod', mul-add-mod_self_right}

-- The definitions that the native operations stand for, on a count of digits.
abbrev and_digits : ℕ → ℕ → ℕ → ℕ
and_digits n a b = digits (λ b. zero) min n a b

abbrev xor_digits : ℕ → ℕ → ℕ → ℕ
xor_digits n a b = digits (λ b. b) differ n a b

and_digits_enough : (n m a b : ℕ) → a ≤ n → a ≤ m → and_digits n a b ≡ and_digits m a b
and_digits_enough zero zero a b p q = refl
and_digits_enough zero (suc m) zero b p q = refl
and_digits_enough zero (suc m) (suc a) b p q = absurd (omega arith)
and_digits_enough (suc n) zero zero b p q = refl
and_digits_enough (suc n) zero (suc a) b p q = absurd (omega arith)
and_digits_enough (suc n) (suc m) zero b p q = refl
and_digits_enough (suc n) (suc m) (suc a) b p q =
    omega (arith, and_digits_enough n m (suc a / 2) (b / 2) (omega arith) (omega arith))

xor_digits_enough : (n m a b : ℕ) → a ≤ n → a ≤ m → xor_digits n a b ≡ xor_digits m a b
xor_digits_enough zero zero zero b p q = refl
xor_digits_enough zero zero (suc a) b p q = absurd (omega arith)
xor_digits_enough zero (suc m) zero b p q = refl
xor_digits_enough zero (suc m) (suc a) b p q = absurd (omega arith)
xor_digits_enough (suc n) zero zero b p q = refl
xor_digits_enough (suc n) zero (suc a) b p q = absurd (omega arith)
xor_digits_enough (suc n) (suc m) zero b p q = refl
xor_digits_enough (suc n) (suc m) (suc a) b p q =
    omega (arith, xor_digits_enough n m (suc a / 2) (b / 2) (omega arith) (omega arith))

zero-bit_and : (b : ℕ) → bit_and 0 b ≡ 0
zero-bit_and b = bit_and-bitwise 0 b

zero-bit_xor : (b : ℕ) → bit_xor 0 b ≡ b
zero-bit_xor b = bit_xor-bitwise 0 b

differ_bits : (x y : ℕ) → x < 2 → y < 2 → differ x y ≡ (x + y) % 2
differ_bits zero y p q = omega arith
differ_bits (suc zero) zero p q = refl
differ_bits (suc zero) (suc zero) p q = refl
differ_bits (suc zero) (suc (suc y)) p q = absurd (omega arith)
differ_bits (suc (suc x)) y p q = absurd (omega arith)

and_step : (a b : ℕ) → bit_and a b ≡ bit_and (a / 2) (b / 2) * 2 + min (a % 2) (b % 2)
and_step zero b = omega (arith, zero-bit_and b, zero-bit_and (b / 2))
and_step (suc a) b = omega (
  arith,
  bit_and-bitwise (suc a) b,
  bit_and-bitwise (suc a / 2) (b / 2),
  and_digits_enough a (suc a / 2) (suc a / 2) (b / 2) (omega arith) (omega arith),
)

xor_step : (a b : ℕ) → bit_xor a b ≡ bit_xor (a / 2) (b / 2) * 2 + (a % 2 + b % 2) % 2
xor_step zero b = omega (arith, zero-bit_xor b, zero-bit_xor (b / 2))
xor_step (suc a) b = omega (
  arith,
  bit_xor-bitwise (suc a) b,
  bit_xor-bitwise (suc a / 2) (b / 2),
  xor_digits_enough a (suc a / 2) (suc a / 2) (b / 2) (omega arith) (omega arith),
  differ_bits (suc a % 2) (b % 2) (omega arith) (omega arith),
)

and_half : (a b : ℕ) → bit_and a b / 2 ≡ bit_and (a / 2) (b / 2)
and_half a b = omega (arith, and_step a b)

xor_half : (a b : ℕ) → bit_xor a b / 2 ≡ bit_xor (a / 2) (b / 2)
xor_half a b = omega (arith, xor_step a b)

xor_twice_below : (n a b : ℕ) → a ≤ n → b ≤ n → bit_xor (bit_xor a b) b ≡ a
xor_twice_below zero zero zero p q = refl
xor_twice_below zero (suc a) b p q = absurd (omega arith)
xor_twice_below zero a (suc b) p q = absurd (omega arith)
xor_twice_below (suc n) a b p q =
    let half : bit_xor (bit_xor a b / 2) (b / 2) ≡ a / 2 =
      rw (xor_half a b) (xor_twice_below n (a / 2) (b / 2) (omega arith) (omega arith)) in
    omega (arith, half, xor_step a b, xor_step (bit_xor a b) b)

-- An exclusive or with the same number twice changes nothing.
pub xor_twice : (a b : ℕ) → bit_xor (bit_xor a b) b ≡ a
xor_twice a b = xor_twice_below (a + b) a b (omega arith) (omega arith)

pub xor-lt : (k a b : ℕ) → a < 2 ^ k → b < 2 ^ k → bit_xor a b < 2 ^ k
xor-lt zero zero zero p q = omega arith
xor-lt zero (suc a) b p q = absurd (omega arith)
xor-lt zero a (suc b) p q = absurd (omega arith)
xor-lt (suc k) a b p q =
    let e : 2 ^ suc k ≡ 2 ^ k * 2 = pow-suc 2 k in
    let half : bit_xor (a / 2) (b / 2) < 2 ^ k =
      xor-lt k (a / 2) (b / 2) (omega arith) (omega arith) in
    omega (arith, e, half, xor_step a b)

-- Two numbers have the same `k` lowest binary digits.
abbrev pub SameLow : ℕ → ℕ → ℕ → Type 0
SameLow zero a b = Unit {0}
SameLow (suc k) a b = (a % 2 ≡ b % 2) × SameLow k (a / 2) (b / 2)

pub and-SameLow :
    (k a a' b b' : ℕ) → SameLow k a a' → SameLow k b b' → SameLow k (bit_and a b) (bit_and a' b')
and-SameLow zero a a' b b' p q = tt
and-SameLow (suc k) a a' b b' p q = (
  omega (arith, and_step a b, and_step a' b'),
  rw (and_half a b, and_half a' b') (and-SameLow k (a / 2) (a' / 2) (b / 2) (b' / 2) p.1 q.1),
)

pub xor-SameLow :
    (k a a' b b' : ℕ) → SameLow k a a' → SameLow k b b' → SameLow k (bit_xor a b) (bit_xor a' b')
xor-SameLow zero a a' b b' p q = tt
xor-SameLow (suc k) a a' b b' p q = (
  omega (arith, xor_step a b, xor_step a' b'),
  rw (xor_half a b, xor_half a' b') (xor-SameLow k (a / 2) (a' / 2) (b / 2) (b' / 2) p.1 q.1),
)

two_pow_pos : (k : ℕ) → 0 < 2 ^ k
two_pow_pos zero = omega arith
two_pow_pos (suc k) = omega (arith, pow-suc 2 k, two_pow_pos k)

-- The lowest digit and the others of a remainder.
half_mod : (p a : ℕ) → 0 < p → a % (p * 2) ≡ (a / 2) % p * 2 + a % 2
half_mod p a pos =
    let q = a / 2 / p in
    let r = (a / 2) % p * 2 + a % 2 in
    let small : (a / 2) % p < p = mod-lt (a / 2) pos in
    let whole : a / 2 ≡ q * p + (a / 2) % p = sym (div-add-mod' (a / 2) p) in
    let split : a ≡ q * (p * 2) + r = grind arith in
    ap (λ (t : ℕ). t % (p * 2)) split
    ∙ mul-add-mod_self_right q (p * 2) r
    ∙ mod-eq_of_lt (omega arith)

pub SameLow-mod : (k a b : ℕ) → SameLow k a b → a % 2 ^ k ≡ b % 2 ^ k
SameLow-mod zero a b h = omega arith
SameLow-mod (suc k) a b h =
    rw
      (
        pow-suc 2 k,
        half_mod (2 ^ k) a (two_pow_pos k),
        half_mod (2 ^ k) b (two_pow_pos k),
        h.0,
        SameLow-mod k (a / 2) (b / 2) h.1,
      )
      refl

pub mod_SameLow : (k a b : ℕ) → a % 2 ^ k ≡ b % 2 ^ k → SameLow k a b
mod_SameLow zero a b e = tt
mod_SameLow (suc k) a b e =
    let e' : a % (2 ^ k * 2) ≡ b % (2 ^ k * 2) = rw (← pow-suc 2 k) e in
    let fa = half_mod (2 ^ k) a (two_pow_pos k) in
    let fb = half_mod (2 ^ k) b (two_pow_pos k) in
    (omega (arith, fa, fb, e'), mod_SameLow k (a / 2) (b / 2) (omega (arith, fa, fb, e')))

-- The low 16 digits of a result come from the low 16 digits of its arguments.
pub and-mod16 :
    (a a' b b' : ℕ)
    → a % 2 ^ 16 ≡ a' % 2 ^ 16
    → b % 2 ^ 16 ≡ b' % 2 ^ 16
    → bit_and a b % 2 ^ 16 ≡ bit_and a' b' % 2 ^ 16
and-mod16 a a' b b' p q =
    SameLow-mod 16 (bit_and a b) (bit_and a' b')
      (and-SameLow 16 a a' b b' (mod_SameLow 16 a a' p) (mod_SameLow 16 b b' q))

pub xor-mod16 :
    (a a' b b' : ℕ)
    → a % 2 ^ 16 ≡ a' % 2 ^ 16
    → b % 2 ^ 16 ≡ b' % 2 ^ 16
    → bit_xor a b % 2 ^ 16 ≡ bit_xor a' b' % 2 ^ 16
xor-mod16 a a' b b' p q =
    SameLow-mod 16 (bit_xor a b) (bit_xor a' b')
      (xor-SameLow 16 a a' b b' (mod_SameLow 16 a a' p) (mod_SameLow 16 b b' q))
