-- ===== src/SametimeList/Laws/Ends.antt =====
-- Loading a list of contacts comes to an end.
use meanwhile.Base.{
  ℕ, zero, suc, ◌<◌, ◌≤◌, ◌≡◌, sym, ap, arith, Bool, true, false, ◌||◌, some, List, [], ◌∷◌, ◌==◌,
  length, Bool-cases, Option-cases, inl, inr,
}
use mathlib.Core.Option.{some-injective, some-ne-none}
use mathlib.Core.Bool.{true≢false}
use meanwhile.SametimeList.{SametimeList}
use meanwhile.SametimeList.Load.{
  skip_space, to_end, line_from, fetch_line, on_line, list_get_from, Loading, loaded, undefined,
  unfinished,
}

to_end-length : (cs : List ℕ) → length (to_end cs).1 ≤ length cs
unfolding to_end
to_end-length [] = omega arith
to_end-length (c ∷ cs) =
    let rest = to_end-length cs in
    elim (Bool-cases (c == 10 || c == 13)) [
      | inl e ↦ rw e (omega arith)
      | inr e ↦ rw e (omega arith)
    ]

line_from-length :
    (cs : List ℕ) (line : List ℕ × List ℕ) → line_from cs ≡ some line → length line.1 < length cs
line_from-length [] line e = absurd (some-ne-none line (sym e))
line_from-length (c ∷ cs) line e =
    let same = some-injective (c ∷ (to_end cs).0, (to_end cs).1) line e in
    let rest = to_end-length cs in
    let left : length (to_end cs).1 ≡ length line.1 =
      ap (λ (r : List ℕ × List ℕ). length r.1) same in
    omega arith

abbrev ends : Loading → Bool
ends (loaded l) = true
ends undefined = true
ends unfinished = false

module _ (is_space : ℕ → Bool) where
  skip_space-length : (cs : List ℕ) → length (skip_space is_space cs) ≤ length cs
  unfolding skip_space
  skip_space-length [] = omega arith
  skip_space-length (c ∷ cs) =
      let rest = skip_space-length cs in
      elim (Bool-cases (is_space c)) [ inl e ↦ rw e (omega arith) | inr e ↦ rw e (omega arith) ]

  -- Loading comes to an end: with more fuel than the text has characters, as mwSametimeList_load
  -- and mwSametimeList_get give it, the loop of list_get does not run out of it, for any text,
  -- list and g_ascii_isspace, and whether a group was read before or not; its outcome is a list,
  -- or a use of memory that is not its own.
  pub list_get_ends :
      (n : ℕ) (cs : List ℕ) (has_group : Bool) (l : SametimeList)
      → length cs < n
      → ¬ (list_get_from is_space n cs has_group l ≡ unfinished)
  unfolding list_get_from
  list_get_ends zero cs has_group l h = absurd (omega arith)
  list_get_ends (suc n) cs has_group l h = elim (Option-cases (fetch_line is_space cs)) [
    | inl e ↦ rw (list_get_from, e) (λ p. true≢false (ap ends p))
    | inr (line, e) ↦ elim (Option-cases (on_line line.0 has_group l)) [
      | inl f ↦ rw (list_get_from, e, f) (λ p. true≢false (ap ends p))
      | inr (next, f) ↦
          let shorter = line_from-length (skip_space is_space cs) line e in
          let skipped = skip_space-length cs in
          rw (list_get_from, e, f) (list_get_ends n line.1 next.0 next.1 (omega arith))
    ]
  ]
