-- ===== src/Witnesses/Numbers.antt =====
-- A library of large integers for the tests: numbers with their powers, written to base 256.
use meanwhile.Base.{
  ℕ, zero, suc, ◌+◌, ◌*◌, ◌/◌, ◌%◌, ◌^◌, ◌≤◌, ◌≡◌, refl, sym, ap, ◌∙◌, arith, List, [], ◌∷◌, ◌++◌,
  if◌then◌else◌, ◌==◌,
}
use native.Mathlib.Nat.{
  mod-add-mod, add-mod-mod, mul_comm, mul-zero, mul-suc, pow-zero, pow-suc, mul-mul-mul_comm,
}
use meanwhile.Cipher.Rc2128.{Mpi}
use meanwhile.Cipher.Rc2128.Laws.{IsMpi}

-- The digits of a number, the highest first, of which there are at most `n`.
abbrev digits : ℕ → ℕ → List ℕ
digits zero x = []
digits (suc n) x = let rest = digits n (x / 256) in if x == 0 then [] else rest ++ (x % 256 ∷ [])

abbrev number_from : ℕ → List ℕ → ℕ
number_from x [] = x
number_from x (d ∷ ds) = number_from (x * 256 + d) ds

number_from-append :
    (x : ℕ) (ds : List ℕ) (d : ℕ) → number_from x (ds ++ (d ∷ [])) ≡ number_from x ds * 256 + d
number_from-append x [] d = refl
number_from-append x (e ∷ ds) d = number_from-append (x * 256 + e) ds d

number_from-digits : (n x : ℕ) → x ≤ n → number_from 0 (digits n x) ≡ x
number_from-digits zero x h = omega arith
number_from-digits (suc n) zero h = refl
number_from-digits (suc n) (suc x) h =
    let shown : digits (suc n) (suc x) ≡ digits n (suc x / 256) ++ (suc x % 256 ∷ []) =
      ground arith in
    rw shown (
      number_from-append 0 (digits n (suc x / 256)) (suc x % 256)
      ∙ omega (arith, number_from-digits n (suc x / 256) (omega arith)))

mod_mul : (a b p : ℕ) → (a % p * b) % p ≡ (a * b) % p
mod_mul a zero p = rw (mul-zero (a % p), mul-zero a) refl
mod_mul a (suc b) p =
    rw (mul-suc (a % p) b, mul-suc a b)
      (add-mod-mod (a % p * b) a p
        ∙ sym (mod-add-mod (a % p * b) p a)
        ∙ ap (λ (t : ℕ). (t + a) % p) (mod_mul a b p)
        ∙ mod-add-mod (a * b) p a)

mod_mul_both : (a b p : ℕ) → (a % p * (b % p)) % p ≡ (a * b) % p
mod_mul_both a b p =
    mod_mul a (b % p) p
    ∙ ap (λ (t : ℕ). t % p) (mul_comm a (b % p))
    ∙ mod_mul b a p
    ∙ ap (λ (t : ℕ). t % p) (mul_comm b a)

mod_pow : (a n p : ℕ) → ((a % p) ^ n) % p ≡ (a ^ n) % p
mod_pow a zero p = rw (pow-zero (a % p), pow-zero a) refl
mod_pow a (suc n) p =
    rw (pow-suc (a % p) n, pow-suc a n)
      (sym (mod_mul ((a % p) ^ n) (a % p) p)
        ∙ ap (λ (t : ℕ). (t * (a % p)) % p) (mod_pow a n p)
        ∙ mod_mul_both (a ^ n) a p)

one_pow : (n : ℕ) → 1 ^ n ≡ 1
one_pow zero = refl
one_pow (suc n) = rw (pow-suc 1 n, one_pow n) refl

mul_pow : (a b n : ℕ) → (a * b) ^ n ≡ a ^ n * b ^ n
mul_pow a b zero = rw (pow-zero (a * b), pow-zero a, pow-zero b) refl
mul_pow a b (suc n) =
    rw (pow-suc (a * b) n, pow-suc a n, pow-suc b n, mul_pow a b n)
      (mul-mul-mul_comm (a ^ n) (b ^ n) a b)

pow_swap : (g x y : ℕ) → (g ^ x) ^ y ≡ (g ^ y) ^ x
pow_swap g zero y = rw (pow-zero g, pow-zero (g ^ y)) (one_pow y)
pow_swap g (suc x) y = rw (pow-suc g x, pow-suc (g ^ y) x, mul_pow (g ^ x) g y, pow_swap g x y) refl

abbrev pub numbers : Mpi
numbers = record {
  Num = ℕ;
  read_unsigned_bin = number_from 0;
  to_unsigned_bin = λ x. digits x x;
  set_int = λ x. x;
  exptmod = λ g x p. (g ^ x) % p;
}

pub numbers-IsMpi : IsMpi numbers
numbers-IsMpi = record {
  read-to = λ x. number_from-digits x x (omega arith);
  swap = λ g x y p.
      mod_pow (g ^ x) y p ∙ ap (λ (t : ℕ). t % p) (pow_swap g x y) ∙ sym (mod_pow (g ^ y) x p);
}
