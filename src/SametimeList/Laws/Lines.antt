-- ===== src/SametimeList/Laws/Lines.antt =====
-- The lines of a list of contacts are read as they were written.
use meanwhile.Base.{
  ℕ, suc, ◌≡◌, refl, sym, ap, ◌∙◌, arith, Bool, true, false, some, List, [], ◌∷◌, ◌++◌,
  append_assoc, ◌==◌, length, All, All-append,
}
use meanwhile.SametimeList.{GroupType, group_unknown, group_normal, group_dynamic}
use meanwhile.SametimeList.Scan.{scan_word, scan_char, skip_blanks, str_replace, scan_literal}
use meanwhile.SametimeList.Scan.Laws.{
  IsWordChar, IsPlain, scan_word_lem, str_replace-words, str_replace-back, str_replace-append,
}
use meanwhile.SametimeList.Store.{group_type_to_char, open_char, group_line}
use meanwhile.SametimeList.Load.{
  group_char_to_type, scan_group, with_name, with_alias, with_open, cut_last, cut_type, group_of,
}

pub cut_last-push : (c : ℕ) (cs : List ℕ) (t : ℕ) → cut_last c (cs ++ (t ∷ [])) ≡ (c ∷ cs, t)
unfolding cut_last
cut_last-push c [] t = refl
cut_last-push c (d ∷ ds) t = rw (cut_last-push d ds t) refl

cut_type-push : (cs : List ℕ) (t : ℕ) → cut_type (cs ++ (t ∷ [])) ≡ (cs, t)
unfolding cut_last
cut_type-push [] t = refl
cut_type-push (c ∷ cs) t = cut_last-push c cs t

pub push-some : (cs : List ℕ) (t : ℕ) → (length (cs ++ (t ∷ [])) == 0) ≡ false
push-some [] t = refl
push-some (c ∷ cs) t = ground arith

type-kept :
    (type_ : GroupType)
    → str_replace (group_type_to_char type_ ∷ []) 59 32 ≡ group_type_to_char type_ ∷ []
unfolding str_replace
type-kept group_unknown = refl
type-kept group_normal = refl
type-kept group_dynamic = refl

-- The name of a group with the character of its type, when the semicolons are spaces again.
group_name :
    (name : List ℕ) (type_ : GroupType)
    → All IsPlain name
    → cut_type (str_replace (str_replace name 32 59 ++ (group_type_to_char type_ ∷ [])) 59 32)
      ≡ (name, group_type_to_char type_)
group_name name type_ h =
    rw
      (
        str_replace-append (str_replace name 32 59) (group_type_to_char type_ ∷ []) 59 32,
        str_replace-back name h,
        type-kept type_,
      )
      (cut_type-push name (group_type_to_char type_))

pub type-IsWordChar : (type_ : GroupType) → IsWordChar (group_type_to_char type_)
type-IsWordChar group_unknown = refl
type-IsWordChar group_normal = refl
type-IsWordChar group_dynamic = refl

open_read :
    (name alias : List ℕ) (is_open : Bool)
    → with_open name alias (scan_char (skip_blanks (32 ∷ open_char is_open ∷ [])))
      ≡ (name, alias, open_char is_open)
unfolding skip_blanks
open_read name alias true = refl
open_read name alias false = refl

open_back : (is_open : Bool) → (open_char is_open == 79) ≡ is_open
open_back true = refl
open_back false = refl

group_type_back : (type_ : GroupType) → group_char_to_type (group_type_to_char type_) ≡ type_
group_type_back group_unknown = refl
group_type_back group_normal = refl
group_type_back group_dynamic = refl

pub length-str_replace : (cs : List ℕ) (a b : ℕ) → length (str_replace cs a b) ≡ length cs
unfolding str_replace
length-str_replace [] a b = refl
length-str_replace (c ∷ cs) a b = ap suc (length-str_replace cs a b)

scan_group_line :
    (name alias : List ℕ) (type_ : GroupType) (is_open : Bool)
    → All IsWordChar name
    → All IsWordChar alias
    → (length alias == 0) ≡ false
    → scan_group (scan_literal (71 ∷ []) (group_line name type_ alias is_open))
      ≡ (name ++ (group_type_to_char type_ ∷ []), alias, open_char is_open)
unfolding group_line scan_literal skip_blanks
scan_group_line name alias type_ is_open h k n =
    let t = group_type_to_char type_ in
    let last = 32 ∷ open_char is_open ∷ [] in
    let first =
      scan_word_lem (name ++ (t ∷ [])) (alias ++ last)
        (All-append IsWordChar name (t ∷ []) h (type-IsWordChar type_, tt)) (push-some name t) in
    let second = scan_word_lem alias (open_char is_open ∷ []) k n in
    ap (λ (cs : List ℕ). with_name (scan_word (skip_blanks (32 ∷ cs))))
      (sym (append_assoc name (t ∷ []) (32 ∷ (alias ++ last))))
    ∙ ap with_name first
    ∙ ap (with_alias (name ++ (t ∷ []))) second
    ∙ open_read (name ++ (t ∷ [])) alias is_open

pub group_of-line :
    (name alias : List ℕ) (type_ : GroupType) (is_open : Bool)
    → All IsPlain name
    → All IsPlain alias
    → (length alias == 0) ≡ false
    → group_of (group_line (str_replace name 32 59) type_ (str_replace alias 32 59) is_open)
      ≡ record { type_ = type_; name = name; alias = some alias; is_open = is_open; users = [] }
unfolding group_of
group_of-line name alias type_ is_open h k n =
    rw
      (
        scan_group_line (str_replace name 32 59) (str_replace alias 32 59) type_ is_open
            (str_replace-words name h) (str_replace-words alias k)
            (ap (λ (m : ℕ). m == 0) (length-str_replace alias 32 59) ∙ n),
        group_name name type_ h,
        str_replace-back alias k,
        group_type_back type_,
        open_back is_open,
      )
      refl
