-- ===== src/SametimeList/Scan.antt =====
-- What src/st_list.c uses of C's sscanf and printf: texts are lists of characters, without the
-- terminating zero.
pub mod Laws
pub mod Numbers
use meanwhile.Base.{
  ℕ, suc, zero, ◌+◌, ◌-◌, ◌*◌, ◌/◌, ◌%◌, ◌^◌, Bool, true, false, ◌&&◌, ◌||◌, not, Option, none,
  some, List, [], ◌∷◌, ◌++◌, leb, ◌==◌, if◌then◌else◌,
}

-- isspace: the blank and the characters from tabulator to carriage return
abbrev pub is_blank : ℕ → Bool
is_blank c = c == 32 || leb 9 c && leb c 13

-- A blank in a format.
unfoldable pub skip_blanks : List ℕ → List ℕ
skip_blanks [] = []
skip_blanks (c ∷ cs) = let rest = skip_blanks cs in if is_blank c then rest else c ∷ cs

-- The characters before the next blank, and the rest.
unfoldable pub split_word : List ℕ → List ℕ × List ℕ
split_word [] = ([], [])
split_word (c ∷ cs) =
    let rest = split_word cs in if is_blank c then ([], c ∷ cs) else (c ∷ rest.0, rest.1)

-- %s, which fails at the end of the text.
abbrev pub word_or_end : List ℕ → Option (List ℕ × List ℕ)
word_or_end [] = none
word_or_end (c ∷ cs) = some (split_word (c ∷ cs))

abbrev pub scan_word : List ℕ → Option (List ℕ × List ℕ)
scan_word cs = word_or_end (skip_blanks cs)

-- %c
abbrev pub scan_char : List ℕ → Option (ℕ × List ℕ)
scan_char [] = none
scan_char (c ∷ cs) = some (c, cs)

-- The characters that a format names.
unfoldable pub scan_literal : List ℕ → List ℕ → Option (List ℕ)
scan_literal [] cs = some cs
scan_literal (a ∷ as_) [] = none
scan_literal (a ∷ as_) (c ∷ cs) = let rest = scan_literal as_ cs in if a == c then rest else none

abbrev pub is_digit : ℕ → Bool
is_digit c = leb 48 c && leb c 57

-- The value of the digits behind those that have the value `n`, and the rest.
unfoldable pub read_digits : ℕ → List ℕ → ℕ × List ℕ
read_digits n [] = (n, [])
read_digits n (c ∷ cs) =
    let rest = read_digits (n * 10 + (c - 48)) cs in if is_digit c then rest else (n, c ∷ cs)

-- A number needs a digit.
unfoldable pub scan_digits : List ℕ → Option (ℕ × List ℕ)
scan_digits [] = none
scan_digits (c ∷ cs) = if is_digit c then some (read_digits 0 (c ∷ cs)) else none

-- `unsigned`: a value modulo 2 ^ 32, and what a minus before it makes of it
abbrev pub as_unsigned : ℕ × List ℕ → ℕ × List ℕ
as_unsigned r = (r.0 % 2 ^ 32, r.1)

abbrev pub negated : ℕ × List ℕ → ℕ × List ℕ
negated r = ((2 ^ 32 - r.0 % 2 ^ 32) % 2 ^ 32, r.1)

abbrev pub mapped : (ℕ × List ℕ → ℕ × List ℕ) → Option (ℕ × List ℕ) → Option (ℕ × List ℕ)
mapped f none = none
mapped f (some r) = some (f r)

abbrev pub signed_number : List ℕ → Option (ℕ × List ℕ)
signed_number [] = none
signed_number (c ∷ cs) =
    if c == 45
    then mapped negated (scan_digits cs)
    else if c == 43
    then mapped as_unsigned (scan_digits cs)
    else mapped as_unsigned (scan_digits (c ∷ cs))

-- %u, which skips blanks and takes a sign. For a number that does not fit C leaves the value open;
-- this is what is left of it in 32 bits.
unfoldable pub scan_number : List ℕ → Option (ℕ × List ℕ)
scan_number cs = signed_number (skip_blanks cs)

-- %u of printf, for a number of at most `n` digits.
unfoldable pub digits_of : ℕ → ℕ → List ℕ
digits_of zero v = []
digits_of (suc n) v =
    let rest = digits_of n (v / 10) in
    if v / 10 == 0 then (48 + v) ∷ [] else rest ++ ((48 + v % 10) ∷ [])

-- The ten digits that 32 bits need at most.
abbrev pub print_number : ℕ → List ℕ
print_number v = digits_of 10 v

-- str_replace
unfoldable pub str_replace : List ℕ → ℕ → ℕ → List ℕ
str_replace [] from to = []
str_replace (c ∷ cs) from to = (if c == from then to else c) ∷ str_replace cs from to
