-- ===== src/SametimeList/Scan/Numbers.antt =====
-- A number that is printed is read again.
use meanwhile.Base.{
  ℕ, zero, suc, ◌+◌, ◌-◌, ◌*◌, ◌/◌, ◌%◌, ◌^◌, ◌<◌, ◌≡◌, refl, ◌∙◌, arith, true, false, some, List,
  [], ◌∷◌, ◌++◌, ◌==◌, length, length-append, Bool-cases, inl, inr, All, All-append,
}
use native.Mathlib.Nat.{pow-suc, mod-eq_of_lt}
use mathlib.Core.Path.{subst}
use meanwhile.SametimeList.Scan.{
  is_blank, is_digit, skip_blanks, read_digits, scan_digits, scan_number, digits_of, print_number,
}

abbrev pub IsDigit : ℕ → Type 0
IsDigit c = is_digit c ≡ true

-- The value of digits behind the value `n`.
abbrev value_of : ℕ → List ℕ → ℕ
value_of n [] = n
value_of n (c ∷ cs) = value_of (n * 10 + (c - 48)) cs

value_of-push :
    (n : ℕ) (cs : List ℕ) (c : ℕ) → value_of n (cs ++ (c ∷ [])) ≡ value_of n cs * 10 + (c - 48)
value_of-push n [] c = refl
value_of-push n (d ∷ ds) c = value_of-push (n * 10 + (d - 48)) ds c

digit : (v : ℕ) → v < 10 → IsDigit (48 + v)
digit v h = ground arith

pub digits_of-digits : (n v : ℕ) → All IsDigit (digits_of n v)
unfolding digits_of
digits_of-digits zero v = tt
digits_of-digits (suc n) v = elim (Bool-cases (v / 10 == 0)) [
  | inl e ↦ rw e (digit v (ground arith), tt)
  | inr e ↦ rw e (
      All-append IsDigit (digits_of n (v / 10)) ((48 + v % 10) ∷ []) (digits_of-digits n (v / 10))
        (digit (v % 10) (omega arith), tt))
]

digits_of-value : (n v : ℕ) → v < 10 ^ n → value_of 0 (digits_of n v) ≡ v
unfolding digits_of
digits_of-value zero v h = omega arith
digits_of-value (suc n) v h = elim (Bool-cases (v / 10 == 0)) [
  | inl e ↦ rw e (omega arith)
  | inr e ↦
      let h' : v < 10 ^ n * 10 = subst (λ (t : ℕ). v < t) (pow-suc 10 n) h in
      let back = digits_of-value n (v / 10) (omega arith) in
      rw (e, value_of-push 0 (digits_of n (v / 10)) (48 + v % 10), back) (omega arith)
]

digits_of-some : (n v : ℕ) → (length (digits_of (suc n) v) == 0) ≡ false
unfolding digits_of
digits_of-some n v = elim (Bool-cases (v / 10 == 0)) [
  | inl e ↦ rw e refl
  | inr e ↦ rw (e, length-append (digits_of n (v / 10)) ((48 + v % 10) ∷ [])) (ground arith)
]

-- What is behind a number: the end, or no digit.
abbrev pub Stops : List ℕ → Type 0
Stops t = (n : ℕ) → read_digits n t ≡ (n, t)

read_digits-append :
    (n : ℕ) (ds t : List ℕ)
    → All IsDigit ds
    → Stops t
    → read_digits n (ds ++ t) ≡ (value_of n ds, t)
unfolding read_digits
read_digits-append n [] t h s = s n
read_digits-append n (d ∷ ds) t h s =
    rw (h.0, read_digits-append (n * 10 + (d - 48)) ds t h.1 s) refl

scan_number-digits :
    (ds t : List ℕ)
    → All IsDigit ds
    → (length ds == 0) ≡ false
    → Stops t
    → scan_number (ds ++ t) ≡ some (value_of 0 ds % 2 ^ 32, t)
unfolding scan_number skip_blanks scan_digits
scan_number-digits [] t h n s = absurd (ground (arith, n))
scan_number-digits (d ∷ ds) t h n s =
    let blank : is_blank d ≡ false = ground (arith, h.0) in
    let minus : (d == 45) ≡ false = ground (arith, h.0) in
    let plus : (d == 43) ≡ false = ground (arith, h.0) in
    rw (blank, minus, plus, h.0, read_digits-append 0 (d ∷ ds) t h s) refl

pub scan-print_number :
    (v : ℕ) (t : List ℕ) → v < 2 ^ 32 → Stops t → scan_number (print_number v ++ t) ≡ some (v, t)
scan-print_number v t h s =
    let value = digits_of-value 10 v (omega arith) in
    scan_number-digits (print_number v) t (digits_of-digits 10 v) (digits_of-some 9 v) s
    ∙ rw value (rw (mod-eq_of_lt h) refl)
