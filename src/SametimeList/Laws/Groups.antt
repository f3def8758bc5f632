-- ===== src/SametimeList/Laws/Groups.antt =====
-- The lines of a group are loaded one by one.
use native.Mathlib.Nat.{suc-add, zero-add}
use meanwhile.Base.{
  ℕ, suc, ◌+◌, map, ◌≡◌, refl, ap, ◌∙◌, Bool, true, false, none, some, List, [], ◌∷◌, ◌++◌,
  append_assoc, append-nil, length, All,
}
use meanwhile.Basic.{Str}
use meanwhile.SametimeList.{SametimeUser, SametimeGroup, SametimeList}
use meanwhile.SametimeList.Scan.{str_replace}
use meanwhile.SametimeList.Scan.Laws.{str_replace-words}
use meanwhile.SametimeList.Store.{
  crlf, user_type_to_char, group_line, user_line, user_put, group_users_put, group_put, alias_of,
  semicolons, names_of,
}
use meanwhile.SametimeList.Load.{
  skip_space, on_line, list_get_from, get_group, add_user, group_of, user_of, make_user,
  alias_or_none, loaded,
}
use meanwhile.SametimeList.Laws.{IsStorableUser, IsStorableGroup, stored_user, stored_group}
use meanwhile.SametimeList.Laws.Lines.{group_of-line}
use meanwhile.SametimeList.Laws.Users.{user_type_back, user_of-line}
use meanwhile.SametimeList.Laws.Loading.{
  IsInLine, to_end-line, group_line-IsInLine, user_line-IsInLine,
}

-- What is asked of g_ascii_isspace: that it knows the end of a line, and no letter that a line starts
-- with.
pub record IsSpaceTest (is_space : ℕ → Bool) : Type 0 where
  pub newline : is_space 10 ≡ true
  pub letter_v : is_space 86 ≡ false
  pub letter_g : is_space 71 ≡ false
  pub letter_u : is_space 85 ≡ false

add_user-last :
    (u : SametimeUser) (gs : List SametimeGroup) (g : SametimeGroup)
    → add_user u (gs ++ (g ∷ [])) ≡ gs ++ (record g { users = g.users ++ (u ∷ []) } ∷ [])
unfolding add_user
add_user-last u [] g = refl
add_user-last u (h ∷ []) g = refl
add_user-last u (h ∷ k ∷ gs) g = ap (λ t. h ∷ t) (add_user-last u (k ∷ gs) g)

stored_names :
    (name alias : Str)
    → names_of (semicolons name) (semicolons alias)
      ≡ (str_replace (names_of name alias).0 32 59, str_replace (names_of name alias).1 32 59)
unfolding str_replace
stored_names none none = refl
stored_names none (some a) = refl
stored_names (some n) none = refl
stored_names (some n) (some a) = refl

made_user :
    (u : SametimeUser) (h : IsStorableUser u)
    → make_user
        (h.id, user_type_to_char u.type_)
        ((names_of u.name u.alias).0, alias_or_none (names_of u.name u.alias).1)
      ≡ stored_user u
made_user u h = rw (user_type_back u.type_, h.has_id) refl

on_user :
    (cs : List ℕ) (u : SametimeUser) (l : SametimeList) (gs : List SametimeGroup)
    (g : SametimeGroup)
    → user_of (85 ∷ cs) ≡ some u
    → on_line (85 ∷ cs) true (record l { groups = gs ++ (g ∷ []) })
      ≡ some (true, record l { groups = gs ++ (record g { users = g.users ++ (u ∷ []) } ∷ []) })
unfolding on_line
on_user cs u l gs g e = rw (e, add_user-last u gs g) refl

module _ (is_space : ℕ → Bool) (test : IsSpaceTest is_space) where
  -- One line: the switch decides with what the loop goes on.
  pub line_step :
      (n c : ℕ) (cs rest : List ℕ) (a b : Bool) (l m : SametimeList)
      → is_space c ≡ false
      → All IsInLine cs
      → on_line (c ∷ cs) a l ≡ some (b, m)
      → list_get_from is_space (suc n) ((c ∷ cs) ++ (13 ∷ rest)) a l
        ≡ list_get_from is_space n rest b m
  unfolding list_get_from skip_space
  line_step n c cs rest a b l m s h e =
      let line = to_end-line cs rest h in
      rw (list_get_from, s, line, e)
        (ap (λ (r : List ℕ × List ℕ). list_get_from is_space n r.1 b m) line)

  after_newline :
      (n : ℕ) (t : List ℕ) (a : Bool) (l : SametimeList)
      → list_get_from is_space (suc n) (10 ∷ t) a l ≡ list_get_from is_space (suc n) t a l
  unfolding list_get_from skip_space
  after_newline n t a l = rw (list_get_from, test.newline) refl

  pub at_end :
      (n : ℕ) (a : Bool) (l : SametimeList)
      → list_get_from is_space (suc n) (10 ∷ []) a l ≡ loaded l
  unfolding list_get_from skip_space
  at_end n a l = rw (list_get_from, test.newline) refl

  -- A line of a user behind the end of another line.
  user_step :
      (n : ℕ) (u : SametimeUser) (rest : List ℕ) (l : SametimeList) (gs : List SametimeGroup)
      (g : SametimeGroup)
      → IsStorableUser u
      → list_get_from is_space
          (suc n)
          (10 ∷ (user_put u ++ rest))
          true
          (record l { groups = gs ++ (g ∷ []) })
        ≡ list_get_from is_space n (10 ∷ rest) true (record l {
          groups = gs ++ (record g { users = g.users ++ (stored_user u ∷ []) } ∷ []);
        })
  unfolding user_put user_line
  user_step n u rest l gs g h =
      let names = names_of u.name u.alias in
      let id' = str_replace h.id 32 59 in
      let names' : List ℕ × List ℕ = (str_replace names.0 32 59, str_replace names.1 32 59) in
      let printed : user_put u ≡ user_line id' u.type_ names' ++ crlf =
        rw (h.has_id, stored_names u.name u.alias) refl in
      let line = user_line id' u.type_ names' in
      let scanned : user_of line ≡ some (stored_user u) =
        user_of-line h.id u.type_ names.0 names.1 h.plain_id h.plain_name h.plain_alias h.colons
          h.commas
        ∙ ap some (made_user u h) in
      let in_line : All IsInLine line =
        user_line-IsInLine id' u.type_ names' (str_replace-words h.id h.plain_id)
          (str_replace-words names.0 h.plain_name) (str_replace-words names.1 h.plain_alias) in
      let started = record l { groups = gs ++ (g ∷ []) } in
      after_newline n (user_put u ++ rest) true started
      ∙ ap (λ (t : List ℕ). list_get_from is_space (suc n) (t ++ rest) true started) printed
      ∙ ap (λ (t : List ℕ). list_get_from is_space (suc n) t true started)
          (append_assoc line crlf rest)
      ∙ line_step n 85 _ (10 ∷ rest) true true started _ test.letter_u in_line.1
          (on_user _ (stored_user u) l gs g scanned)

  users_step :
      (n : ℕ) (us : List SametimeUser) (rest : List ℕ) (l : SametimeList) (gs : List SametimeGroup)
      (g : SametimeGroup)
      → All IsStorableUser us
      → list_get_from is_space
          (length us + suc n)
          (10 ∷ (group_users_put us ++ rest))
          true
          (record l { groups = gs ++ (g ∷ []) })
        ≡ list_get_from is_space
            (suc n)
            (10 ∷ rest)
            true
            (record l { groups = gs ++ (record g { users = g.users ++ map stored_user us } ∷ []) })
  unfolding group_users_put
  users_step n [] rest l gs g h = rw (append-nil g.users, zero-add) refl
  users_step n (u ∷ us) rest l gs g h =
      let grown = record g { users = g.users ++ (stored_user u ∷ []) } in
      rw (append_assoc (user_put u) (group_users_put us) rest, suc-add)
        (user_step (length us + suc n) u (group_users_put us ++ rest) l gs g h.0
          ∙ users_step n us rest l gs grown h.1
          ∙ rw (append_assoc g.users (stored_user u ∷ []) (map stored_user us)) refl)

  pub group_step :
      (n : ℕ) (g : SametimeGroup) (rest : List ℕ) (a : Bool) (l : SametimeList)
      → IsStorableGroup g
      → list_get_from is_space (suc (length g.users + suc n)) (10 ∷ (group_put g ++ rest)) a l
        ≡ list_get_from is_space
            (suc n)
            (10 ∷ rest)
            true
            (record l { groups = l.groups ++ (stored_group g ∷ []) })
  unfolding group_put group_line on_line get_group
  group_step n g rest a l h =
      let name' = str_replace g.name 32 59 in
      let alias' = str_replace (alias_of g) 32 59 in
      let line = group_line name' g.type_ alias' g.is_open in
      let read = record g { alias = some (alias_of g); users = [] } in
      let scanned : group_of line ≡ read =
        group_of-line g.name (alias_of g) g.type_ g.is_open h.plain_name h.plain_alias
          h.has_alias in
      let in_line : All IsInLine line =
        group_line-IsInLine name' alias' g.type_ g.is_open (str_replace-words g.name h.plain_name)
          (str_replace-words (alias_of g) h.plain_alias) in
      let m = length g.users + suc n in
      after_newline m (group_put g ++ rest) a l
      ∙ ap (λ (t : List ℕ). list_get_from is_space (suc m) t a l)
          (append_assoc (line ++ crlf) (group_users_put g.users) rest
            ∙ append_assoc line crlf (group_users_put g.users ++ rest))
      ∙ line_step m 71 _ (10 ∷ (group_users_put g.users ++ rest)) a true l _ test.letter_g in_line.1
          (ap (λ (k : SametimeGroup). some (true, record l { groups = l.groups ++ (k ∷ []) }))
            scanned)
      ∙ users_step n g.users rest l l.groups read h.users
