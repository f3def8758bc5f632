-- ===== src/SametimeList/Laws/Users.antt =====
-- The line of a user is read as it was written.
use mathlib.Core.Option.{some-ne-none}
use meanwhile.Base.{
  ℕ, ◌≡◌, refl, sym, ap, ◌∙◌, arith, false, Option, none, some, List, [], ◌∷◌, ◌++◌, append_assoc,
  ◌==◌, length, Bool-cases, inl, inr, All, All-append,
}
use meanwhile.SametimeList.{UserType, user_unknown, user_normal, user_external}
use meanwhile.SametimeList.Scan.{scan_word, skip_blanks, str_replace, scan_literal}
use meanwhile.SametimeList.Scan.Laws.{
  IsWordChar, IsPlain, scan_word_lem, scan_word_end, str_replace-words, str_replace-back,
  str_replace-append,
}
use meanwhile.SametimeList.Store.{user_type_to_char, user_line}
use meanwhile.SametimeList.Load.{
  user_char_to_type, scan_user, with_id, id_and_name, cut_last, user_of, before_colons, put_before,
  type_before, last_comma, make_user, alias_or_none,
}
use meanwhile.SametimeList.Laws.Lines.{cut_last-push}

append-some : (cs ds : List ℕ) (d : ℕ) → (length (cs ++ (d ∷ ds)) == 0) ≡ false
append-some [] ds d = ground arith
append-some (c ∷ cs) ds d = ground arith

id_end-IsWordChar : (type_ : UserType) → All IsWordChar (user_type_to_char type_ ∷ 58 ∷ 58 ∷ [])
id_end-IsWordChar user_unknown = (refl, (refl, (refl, tt)))
id_end-IsWordChar user_normal = (refl, (refl, (refl, tt)))
id_end-IsWordChar user_external = (refl, (refl, (refl, tt)))

id_end-kept :
    (type_ : UserType)
    → str_replace (user_type_to_char type_ ∷ 58 ∷ 58 ∷ []) 59 32
      ≡ user_type_to_char type_ ∷ 58 ∷ 58 ∷ []
unfolding str_replace
id_end-kept user_unknown = refl
id_end-kept user_normal = refl
id_end-kept user_external = refl

pub user_type_back : (type_ : UserType) → user_char_to_type (user_type_to_char type_) ≡ type_
user_type_back user_unknown = refl
user_type_back user_normal = refl
user_type_back user_external = refl

no_colon : (type_ : UserType) → (user_type_to_char type_ == 58) ≡ false
no_colon user_unknown = refl
no_colon user_normal = refl
no_colon user_external = refl

put_before-none : (c : ℕ) (r : Option (List ℕ)) → put_before c r ≡ none → r ≡ none
put_before-none c none e = refl
put_before-none c (some cs) e = cc

-- The first two colons are those behind the type.
before_colons-end :
    (id : List ℕ) (t : ℕ)
    → (t == 58) ≡ false
    → before_colons id ≡ none
    → before_colons (id ++ (t ∷ 58 ∷ 58 ∷ [])) ≡ some (id ++ (t ∷ []))
unfolding before_colons
before_colons-end [] t h e = rw h refl
before_colons-end (c ∷ []) t h e = elim (Bool-cases (c == 58)) [
  | inl x ↦ rw (x, h) refl
  | inr x ↦ rw (x, h) refl
]
before_colons-end (c ∷ d ∷ ds) t h e = elim (Bool-cases (c == 58)) [
  | inl x ↦ elim (Bool-cases (d == 58)) [
    | inl y ↦ absurd (some-ne-none [] (sym (rw (x, y) refl) ∙ e))
    | inr y ↦
        let rest = put_before-none c (before_colons (d ∷ ds)) (sym (rw (x, y) refl) ∙ e) in
        rw (x, y, before_colons-end (d ∷ ds) t h rest) refl
  ]
  | inr x ↦
      let rest = put_before-none c (before_colons (d ∷ ds)) (sym (rw x refl) ∙ e) in
      rw (x, before_colons-end (d ∷ ds) t h rest) refl
]

type_before-end :
    (id : List ℕ) (t : ℕ) (whole : List ℕ)
    → type_before (some (id ++ (t ∷ []))) whole ≡ some (id, t)
unfolding cut_last
type_before-end [] t whole = refl
type_before-end (c ∷ cs) t whole = ap some (cut_last-push c cs t)

-- The last comma is the one between the name and the alias.
last_comma-between :
    (name alias : List ℕ)
    → last_comma alias ≡ none
    → last_comma (name ++ (44 ∷ alias)) ≡ some (name, alias)
unfolding last_comma
last_comma-between [] alias e = rw e refl
last_comma-between (c ∷ cs) alias e = rw (last_comma-between cs alias e) refl

scan_user_line :
    (id : List ℕ) (type_ : UserType) (names : List ℕ × List ℕ)
    → All IsWordChar id
    → All IsWordChar names.0
    → All IsWordChar names.1
    → scan_user (scan_literal (85 ∷ []) (user_line id type_ names))
      ≡ (id ++ (user_type_to_char type_ ∷ 58 ∷ 58 ∷ []), names.0 ++ (44 ∷ names.1))
unfolding user_line scan_literal skip_blanks
scan_user_line id type_ names h k m =
    let t = user_type_to_char type_ in
    let behind = names.0 ++ (44 ∷ names.1) in
    let first =
      scan_word_lem (id ++ (t ∷ 58 ∷ 58 ∷ [])) behind
        (All-append IsWordChar id (t ∷ 58 ∷ 58 ∷ []) h (id_end-IsWordChar type_))
        (append-some id (58 ∷ 58 ∷ []) t) in
    let second =
      scan_word_end behind (All-append IsWordChar names.0 (44 ∷ names.1) k (refl, m))
        (append-some names.0 names.1 44) in
    ap (λ (cs : List ℕ). with_id (scan_word (skip_blanks (32 ∷ cs))))
      (sym (append_assoc id (t ∷ 58 ∷ 58 ∷ []) (32 ∷ behind)))
    ∙ ap with_id first
    ∙ ap (id_and_name (id ++ (t ∷ 58 ∷ 58 ∷ []))) second

comma_kept :
    (name alias : List ℕ)
    → All IsPlain name
    → All IsPlain alias
    → str_replace (str_replace name 32 59) 59 32 ++ str_replace (44 ∷ str_replace alias 32 59) 59 32
      ≡ name ++ (44 ∷ alias)
unfolding str_replace
comma_kept name alias k m = rw (str_replace-back name k, str_replace-back alias m) refl

pub user_of-line :
    (id : List ℕ) (type_ : UserType) (name alias : List ℕ)
    → All IsPlain id
    → All IsPlain name
    → All IsPlain alias
    → before_colons id ≡ none
    → last_comma alias ≡ none
    → user_of
        (user_line (str_replace id 32 59) type_ (str_replace name 32 59, str_replace alias 32 59))
      ≡ some (make_user (id, user_type_to_char type_) (name, alias_or_none alias))
unfolding user_of
user_of-line id type_ name alias h k m e f =
    let id' = str_replace id 32 59 in
    let name' = str_replace name 32 59 in
    let alias' = str_replace alias 32 59 in
    let t = user_type_to_char type_ in
    let ids : str_replace (id' ++ (t ∷ 58 ∷ 58 ∷ [])) 59 32 ≡ id ++ (t ∷ 58 ∷ 58 ∷ []) =
      str_replace-append id' (t ∷ 58 ∷ 58 ∷ []) 59 32
      ∙ rw (str_replace-back id h, id_end-kept type_) refl in
    let names : str_replace (name' ++ (44 ∷ alias')) 59 32 ≡ name ++ (44 ∷ alias) =
      str_replace-append name' (44 ∷ alias') 59 32 ∙ comma_kept name alias k m in
    rw
      (
        scan_user_line id' type_ (name', alias') (str_replace-words id h) (str_replace-words name k)
            (str_replace-words alias m),
        ids,
        names,
        before_colons-end id t (no_colon type_) e,
        last_comma-between name alias f,
        type_before-end id t (id ++ (t ∷ 58 ∷ 58 ∷ [])),
      )
      refl
