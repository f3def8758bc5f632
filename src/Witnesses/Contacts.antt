-- ===== src/Witnesses/Contacts.antt =====
-- A list of two contacts, stored and loaded.
use meanwhile.Base.{
  ◌<◌, ◌^◌, ℕ, ◌≡◌, refl, arith, Bool, true, false, ◌||◌, none, some, List, [], ◌∷◌, ◌==◌, length,
}
use meanwhile.Buffer.Put.{put_buffer_new, put_buffer_finalize}
use meanwhile.Buffer.Get.{get_buffer_new}
use meanwhile.Basic.{strlen}
use meanwhile.SametimeList.Laws.Wire.{get-put}
use meanwhile.SametimeList.{
  SametimeUser, SametimeGroup, SametimeList, sametime_list_new, group_normal, user_normal,
  user_external,
}
use meanwhile.SametimeList.Scan.{digits_of, str_replace, skip_blanks, split_word, scan_literal}
use meanwhile.SametimeList.Store.{
  sametime_list_put, list_store, version_line, groups_put, group_put, group_line, group_users_put,
  user_put, user_line,
}
use meanwhile.SametimeList.Load.{
  sametime_list_load, sametime_list_get, list_get_from, on_line, user_of, before_colons, last_comma,
  skip_space, to_end, loaded, undefined, unfinished,
}
use meanwhile.SametimeList.Laws.{stored_list, IsStorable, IsStorableUser, IsStorableGroup}
use meanwhile.SametimeList.Laws.Rounds.{load-store}
use meanwhile.SametimeList.Laws.Groups.{IsSpaceTest}
use meanwhile.SametimeList.Laws.Ends.{list_get_ends}

abbrev ascii_isspace : ℕ → Bool
ascii_isspace c = c == 32 || c == 9 || c == 10 || c == 12 || c == 13

ascii_isspace-IsSpaceTest : IsSpaceTest ascii_isspace
ascii_isspace-IsSpaceTest = record {
  newline = refl;
  letter_v = refl;
  letter_g = refl;
  letter_u = refl;
}

-- "b c", who has only an alias, "B"
abbrev carl : SametimeUser
carl = record {
  type_ = user_normal;
  id = record { user = some (98 ∷ 32 ∷ 99 ∷ []); community = none };
  name = none;
  alias = some (66 ∷ []);
}

-- "d", with the name "D E" and the alias "d"
abbrev dora : SametimeUser
dora = record {
  type_ = user_external;
  id = record { user = some (100 ∷ []); community = some (120 ∷ []) };
  name = some (68 ∷ 32 ∷ 69 ∷ []);
  alias = some (100 ∷ []);
}

abbrev friends : SametimeGroup
friends = record {
  type_ = group_normal;
  name = 77 ∷ 121 ∷ [];
  alias = none;
  is_open = true;
  users = carl ∷ dora ∷ [];
}

abbrev contacts : SametimeList
contacts = record sametime_list_new { groups = friends ∷ [] }

carl-IsStorable : IsStorableUser carl
unfolding before_colons last_comma
carl-IsStorable = record {
  id = 98 ∷ 32 ∷ 99 ∷ [];
  has_id = refl;
  plain_id = ((refl, refl), ((refl, refl), ((refl, refl), tt)));
  colons = refl;
  plain_name = ((refl, refl), tt);
  plain_alias = tt;
  commas = refl;
}

dora-IsStorable : IsStorableUser dora
unfolding before_colons last_comma
dora-IsStorable = record {
  id = 100 ∷ [];
  has_id = refl;
  plain_id = ((refl, refl), tt);
  colons = refl;
  plain_name = ((refl, refl), ((refl, refl), ((refl, refl), tt)));
  plain_alias = ((refl, refl), tt);
  commas = refl;
}

friends-IsStorable : IsStorableGroup friends
friends-IsStorable = record {
  plain_name = ((refl, refl), ((refl, refl), tt));
  plain_alias = ((refl, refl), ((refl, refl), tt));
  has_alias = refl;
  users = (carl-IsStorable, (dora-IsStorable, tt));
}

contacts-IsStorable : IsStorable contacts
contacts-IsStorable = record {
  major = omega arith;
  minor = omega arith;
  micro = omega arith;
  groups = (friends-IsStorable, tt);
}

load-store_example :
    sametime_list_load ascii_isspace (list_store contacts) ≡ loaded (stored_list contacts)
load-store_example = load-store ascii_isspace ascii_isspace-IsSpaceTest contacts contacts-IsStorable

no_zero : strlen (list_store contacts) ≡ length (list_store contacts)
unfolding list_store version_line digits_of groups_put group_put group_line group_users_put user_put
    user_line str_replace
no_zero = refl

short : length (list_store contacts) < 2 ^ 16
unfolding list_store version_line digits_of groups_put group_put group_line group_users_put user_put
    user_line str_replace
short = omega arith

get-put_example :
    let r =
      sametime_list_get ascii_isspace sametime_list_new
        (get_buffer_new (some (put_buffer_finalize (sametime_list_put contacts put_buffer_new)))) in
    (r.0 ≡ loaded (stored_list contacts)) × (r.1.error ≡ false)
get-put_example =
    get-put ascii_isspace ascii_isspace-IsSpaceTest contacts contacts-IsStorable no_zero short

-- "U a:: b" without a group before it.
abbrev lonely : List ℕ
lonely = 85 ∷ 32 ∷ 97 ∷ 58 ∷ 58 ∷ 32 ∷ 98 ∷ []

list_get_ends_example :
    ¬ (list_get_from ascii_isspace 8 lonely false sametime_list_new ≡ unfinished)
list_get_ends_example = list_get_ends ascii_isspace 8 lonely false sametime_list_new (omega arith)

-- A user before any group, and a user whose id starts with two colons: the code uses memory that is
-- not its own.
lonely_fails : sametime_list_load ascii_isspace lonely ≡ undefined
unfolding list_get_from on_line skip_space to_end
lonely_fails = refl

-- "U :: b" in a group
nameless_fails : user_of (85 ∷ 32 ∷ 58 ∷ 58 ∷ 32 ∷ 98 ∷ []) ≡ none
unfolding user_of scan_literal skip_blanks split_word str_replace before_colons last_comma
nameless_fails = refl
