-- ===== src/SametimeList/Scan/Laws.antt =====
-- Scanning what was written: words, and the characters that stand for others in them.
use meanwhile.Base.{
  ℕ, ◌≡◌, refl, ap, ◌∙◌, arith, false, some, List, [], ◌∷◌, ◌++◌, ◌==◌, length, Bool-cases, inl,
  inr, All,
}
use meanwhile.SametimeList.Scan.{
  is_blank, skip_blanks, split_word, word_or_end, scan_word, str_replace,
}

-- A character of a word, and one of a text that may be stored: a blank is a space, and it is no
-- semicolon.
abbrev pub IsWordChar : ℕ → Type 0
IsWordChar c = is_blank c ≡ false

abbrev pub IsPlain : ℕ → Type 0
IsPlain c = ((c == 59) ≡ false) × (is_blank c ≡ (c == 32))

split_word_lem :
    (w rest : List ℕ) → All IsWordChar w → split_word (w ++ (32 ∷ rest)) ≡ (w, 32 ∷ rest)
unfolding split_word
split_word_lem [] rest h = refl
split_word_lem (c ∷ cs) rest h = rw (h.0, split_word_lem cs rest h.1) refl

split_word_end : (w : List ℕ) → All IsWordChar w → split_word w ≡ (w, [])
unfolding split_word
split_word_end [] h = refl
split_word_end (c ∷ cs) h = rw (h.0, split_word_end cs h.1) refl

skip_word : (c : ℕ) (cs : List ℕ) → IsWordChar c → skip_blanks (c ∷ cs) ≡ c ∷ cs
unfolding skip_blanks
skip_word c cs h = rw h refl

scanned :
    (c : ℕ) (cs : List ℕ)
    → IsWordChar c
    → scan_word (skip_blanks (32 ∷ c ∷ cs)) ≡ some (split_word (c ∷ cs))
unfolding skip_blanks
scanned c cs h =
    ap (λ t. word_or_end (skip_blanks t)) (skip_word c cs h) ∙ ap word_or_end (skip_word c cs h)

-- A word behind a space, with a space or the end behind it.
pub scan_word_lem :
    (w rest : List ℕ)
    → All IsWordChar w
    → (length w == 0) ≡ false
    → scan_word (skip_blanks (32 ∷ (w ++ (32 ∷ rest)))) ≡ some (w, 32 ∷ rest)
unfolding skip_blanks
scan_word_lem [] rest h n = absurd (ground (arith, n))
scan_word_lem (c ∷ cs) rest h n =
    scanned c (cs ++ (32 ∷ rest)) h.0 ∙ ap some (split_word_lem (c ∷ cs) rest h)

pub scan_word_end :
    (w : List ℕ)
    → All IsWordChar w
    → (length w == 0) ≡ false
    → scan_word (skip_blanks (32 ∷ w)) ≡ some (w, [])
unfolding skip_blanks
scan_word_end [] h n = absurd (ground (arith, n))
scan_word_end (c ∷ cs) h n = scanned c cs h.0 ∙ ap some (split_word_end (c ∷ cs) h)

pub str_replace-words : (cs : List ℕ) → All IsPlain cs → All IsWordChar (str_replace cs 32 59)
unfolding str_replace
str_replace-words [] h = h
str_replace-words (c ∷ cs) h = (
  elim (Bool-cases (c == 32)) [ inl e ↦ rw e refl | inr e ↦ rw e (h.0.1 ∙ e) ],
  str_replace-words cs h.1,
)

pub str_replace-back :
    (cs : List ℕ) → All IsPlain cs → str_replace (str_replace cs 32 59) 59 32 ≡ cs
unfolding str_replace
str_replace-back [] h = refl
str_replace-back (c ∷ cs) h = elim (Bool-cases (c == 32)) [
  | inl e ↦
      let here : 32 ≡ c = ground arith in rw (e, str_replace-back cs h.1) (ap (λ d. d ∷ cs) here)
  | inr e ↦ rw (e, h.0.0, str_replace-back cs h.1) refl
]

pub str_replace-append :
    (cs ds : List ℕ) (a b : ℕ)
    → str_replace (cs ++ ds) a b ≡ str_replace cs a b ++ str_replace ds a b
unfolding str_replace
str_replace-append [] ds a b = refl
str_replace-append (c ∷ cs) ds a b = rw (str_replace-append cs ds a b) refl
