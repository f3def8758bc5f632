-- ===== src/SametimeList/Laws/Rounds.antt =====
-- A list of contacts comes back when it is stored and loaded.
use native.Mathlib.Nat.{suc-add, zero-add}
use mathlib.Core.Bool.{true≢false}
use meanwhile.Base.{
  ℕ, ◌-◌, zero, suc, ◌≤◌, Option-cases, ◌+◌, map, ◌≡◌, refl, sym, ap, ◌∙◌, arith, Bool, true, false,
  some, List, [], ◌∷◌, ◌++◌, append_assoc, append-nil, length, length-append, inl, inr, All,
}
use meanwhile.SametimeList.{SametimeUser, SametimeGroup, SametimeList, sametime_list_new}
use meanwhile.SametimeList.Scan.{str_replace}
use meanwhile.SametimeList.Store.{
  crlf, group_line, user_line, version_line, user_put, group_users_put, group_put, groups_put,
  list_store, alias_of,
}
use meanwhile.SametimeList.Load.{
  fetch_line, sametime_list_load, on_line, list_get_from, Loading, loaded, undefined, unfinished,
}
use meanwhile.SametimeList.Laws.{IsStorableGroup, IsStorable, stored_group, stored_list}
use meanwhile.SametimeList.Laws.Loading.{get_version-line, version_line-IsInLine}
use meanwhile.SametimeList.Laws.Groups.{IsSpaceTest, line_step, at_end, group_step}

abbrev lines_of : List SametimeGroup → ℕ
lines_of [] = 0
lines_of (g ∷ gs) = suc (length g.users + lines_of gs)

abbrev is_loaded : Loading → Bool
is_loaded (loaded l) = true
is_loaded undefined = false
is_loaded unfinished = false

loaded_ne_undefined : (r : SametimeList) → ¬ (loaded r ≡ undefined)
loaded_ne_undefined r h = true≢false (ap is_loaded h)

loaded_ne_unfinished : (r : SametimeList) → ¬ (loaded r ≡ unfinished)
loaded_ne_unfinished r h = true≢false (ap is_loaded h)

module _ (is_space : ℕ → Bool) (test : IsSpaceTest is_space) where
  groups_step :
      (n : ℕ) (gs : List SametimeGroup) (a : Bool) (l : SametimeList)
      → All IsStorableGroup gs
      → list_get_from is_space (lines_of gs + suc n) (10 ∷ groups_put gs) a l
        ≡ loaded (record l { groups = l.groups ++ map stored_group gs })
  unfolding groups_put
  groups_step n [] a l h = rw (append-nil l.groups, zero-add) (at_end is_space test n a l)
  groups_step n (g ∷ gs) a l h =
      let grown = record l { groups = l.groups ++ (stored_group g ∷ []) } in
      let text = 10 ∷ (group_put g ++ groups_put gs) in
      let fuel : lines_of (g ∷ gs) + suc n ≡ suc (length g.users + suc (lines_of gs + n)) =
        omega arith in
      let less : suc (lines_of gs + n) ≡ lines_of gs + suc n = omega arith in
      ap (λ (m : ℕ). list_get_from is_space m text a l) fuel
      ∙ group_step is_space test (lines_of gs + n) g (groups_put gs) a l h.0
      ∙ ap (λ (m : ℕ). list_get_from is_space m (10 ∷ groups_put gs) true grown) less
      ∙ groups_step n gs true grown h.1
      ∙ rw (append_assoc l.groups (stored_group g ∷ []) (map stored_group gs)) refl

  -- More fuel does not change a result.
  list_get_more :
      (n k : ℕ) (cs : List ℕ) (a : Bool) (l r : SametimeList)
      → list_get_from is_space n cs a l ≡ loaded r
      → list_get_from is_space (n + k) cs a l ≡ loaded r
  unfolding list_get_from
  list_get_more zero k cs a l r h = absurd (loaded_ne_unfinished r (sym h))
  list_get_more (suc n) k cs a l r h = rw suc-add (elim (Option-cases (fetch_line is_space cs)) [
    | inl e ↦ rw (list_get_from, e) (sym (rw (list_get_from, e) refl) ∙ h)
    | inr (line, e) ↦ elim (Option-cases (on_line line.0 a l)) [
      | inl f ↦ absurd (loaded_ne_undefined r (sym h ∙ rw (list_get_from, e, f) refl))
      | inr (next, f) ↦
          rw (list_get_from, e, f)
            (list_get_more n k line.1 next.0 next.1 r (sym (rw (list_get_from, e, f) refl) ∙ h))
    ]
  ])

users-length : (us : List SametimeUser) → length us ≤ length (group_users_put us)
unfolding group_users_put user_put user_line
users-length [] = omega arith
users-length (u ∷ us) =
    let rest = users-length us in rw (length-append (user_put u) (group_users_put us)) (omega arith)

groups-lines_of : (gs : List SametimeGroup) → lines_of gs ≤ length (groups_put gs)
unfolding groups_put group_put group_line
groups-lines_of [] = omega arith
groups-lines_of (g ∷ gs) =
    let rest = groups-lines_of gs in
    let users = users-length g.users in
    let line =
      group_line (str_replace g.name 32 59) g.type_ (str_replace (alias_of g) 32 59) g.is_open in
    rw
      (
        length-append (group_put g) (groups_put gs),
        length-append (line ++ crlf) (group_users_put g.users),
      )
      (omega arith)

module _ (is_space : ℕ → Bool) (test : IsSpaceTest is_space) where
  -- For a list whose version numbers have 32 bits, whose texts have no semicolon and no blank but
  -- the space, whose groups have no empty alias, and whose users have an id, without two colons
  -- in it, and no comma in an alias that stands behind a name; and for a g_ascii_isspace that
  -- knows the end of a line and none of the letters V, G and U: storing the list and loading what
  -- was written gives the list again, but without the communities of the users, with the name of
  -- a group for its alias if it had none, with the alias of a user for his name if he had none,
  -- or an empty name, and with no alias where that was empty (`stored_list`).
  pub load-store :
      (l : SametimeList)
      → IsStorable l
      → sametime_list_load is_space (list_store l) ≡ loaded (stored_list l)
  unfolding list_store version_line on_line
  load-store l h =
      let text = list_store l in
      let n = lines_of l.groups + 1 in
      let short : n ≤ length text =
        let rest = groups-lines_of l.groups in
        rw (length-append (version_line l ++ crlf) (groups_put l.groups)) (omega arith) in
      let read = record sametime_list_new {
        ver_major = l.ver_major;
        ver_minor = l.ver_minor;
        ver_micro = l.ver_micro;
      } in
      let exact : list_get_from is_space (suc n) text false sametime_list_new
          ≡ loaded (stored_list l) =
        ap (λ (t : List ℕ). list_get_from is_space (suc n) t false sametime_list_new)
          (append_assoc (version_line l) crlf (groups_put l.groups))
        ∙ line_step is_space test n 86 _ (10 ∷ groups_put l.groups) false false sametime_list_new _
            test.letter_v (version_line-IsInLine l).1
            (ap (λ (k : SametimeList). some (false, k))
              (get_version-line l sametime_list_new h.major h.minor h.micro))
        ∙ groups_step is_space test 0 l.groups false read h.groups in
      let fuel : suc n + (length text - n) ≡ suc (length text) = omega arith in
      ap (λ (m : ℕ). list_get_from is_space m text false sametime_list_new) (sym fuel)
      ∙ list_get_more is_space test (suc n) (length text - n) text false sametime_list_new
          (stored_list l) exact
