-- ===== src/SametimeList/Load.antt =====
-- Reading a list of contacts: mwSametimeList_load and mwSametimeList_get.
use meanwhile.Base.{
  ℕ, zero, suc, Bool, true, false, ◌||◌, Option, none, some, List, [], ◌∷◌, ◌++◌, length, take,
  ◌==◌, if◌then◌else◌,
}
use meanwhile.Buffer.Get.{Get, ◌>>=◌, pure}
use meanwhile.Basic.{Str, strlen, string_get}
use meanwhile.SametimeList.{
  GroupType, group_unknown, group_normal, group_dynamic, UserType, user_unknown, user_normal,
  user_external, SametimeUser, SametimeGroup, SametimeList, sametime_list_new,
}
use meanwhile.SametimeList.Scan.{
  skip_blanks, scan_word, scan_char, scan_literal, scan_number, str_replace,
}
use meanwhile.SametimeList.Store.{version}

abbrev pub user_char_to_type : ℕ → UserType
user_char_to_type c =
    if c == 49 then user_normal else if c == 50 then user_external else user_unknown

abbrev pub group_char_to_type : ℕ → GroupType
group_char_to_type c =
    if c == 50 then group_normal else if c == 51 then group_dynamic else group_unknown

-- What sscanf sets of the three numbers in "Version=%u.%u.%u\n": it stops where the text differs.
abbrev pub with_micro : ℕ → ℕ → Option (ℕ × List ℕ) → ℕ × ℕ × ℕ
with_micro major minor none = (major, minor, 0)
with_micro major minor (some r) = (major, minor, r.0)

abbrev pub scan_micro : ℕ → ℕ → Option (List ℕ) → ℕ × ℕ × ℕ
scan_micro major minor none = (major, minor, 0)
scan_micro major minor (some cs) = with_micro major minor (scan_number cs)

abbrev pub with_minor : ℕ → Option (ℕ × List ℕ) → ℕ × ℕ × ℕ
with_minor major none = (major, 0, 0)
with_minor major (some r) = scan_micro major r.0 (scan_literal (46 ∷ []) r.1)

abbrev pub scan_minor : ℕ → Option (List ℕ) → ℕ × ℕ × ℕ
scan_minor major none = (major, 0, 0)
scan_minor major (some cs) = with_minor major (scan_number cs)

abbrev pub with_major : Option (ℕ × List ℕ) → ℕ × ℕ × ℕ
with_major none = (0, 0, 0)
with_major (some r) = scan_minor r.0 (scan_literal (46 ∷ []) r.1)

abbrev pub scan_major : Option (List ℕ) → ℕ × ℕ × ℕ
scan_major none = (0, 0, 0)
scan_major (some cs) = with_major (scan_number cs)

unfoldable pub get_version : List ℕ → SametimeList → SametimeList
get_version line l =
    let v = scan_major (scan_literal version line) in
    record l { ver_major = v.0; ver_minor = v.1; ver_micro = v.2 }

-- What sscanf sets of name, alias and open in "G %s %s %c\n".
abbrev pub with_open : List ℕ → List ℕ → Option (ℕ × List ℕ) → List ℕ × List ℕ × ℕ
with_open name alias none = (name, alias, 79)
with_open name alias (some r) = (name, alias, r.0)

abbrev pub with_alias : List ℕ → Option (List ℕ × List ℕ) → List ℕ × List ℕ × ℕ
with_alias name none = (name, [], 79)
with_alias name (some r) = with_open name r.0 (scan_char (skip_blanks r.1))

abbrev pub with_name : Option (List ℕ × List ℕ) → List ℕ × List ℕ × ℕ
with_name none = ([], [], 79)
with_name (some r) = with_alias r.0 (scan_word (skip_blanks r.1))

abbrev pub scan_group : Option (List ℕ) → List ℕ × List ℕ × ℕ
scan_group none = ([], [], 79)
scan_group (some cs) = with_name (scan_word (skip_blanks cs))

-- A text without its last character, and that.
unfoldable pub cut_last : ℕ → List ℕ → List ℕ × ℕ
cut_last c [] = ([], c)
cut_last c (d ∷ ds) = let rest = cut_last d ds in (c ∷ rest.0, rest.1)

-- The type is the last character of the name, if there is one.
abbrev pub cut_type : List ℕ → List ℕ × ℕ
cut_type [] = ([], 50)
cut_type (c ∷ cs) = cut_last c cs

-- The group that get_group appends to the list.
unfoldable pub group_of : List ℕ → SametimeGroup
group_of line =
    let scanned = scan_group (scan_literal (71 ∷ []) line) in
    let name = cut_type (str_replace scanned.0 59 32) in
    record {
      type_ = group_char_to_type name.1;
      name = name.0;
      alias = some (str_replace scanned.1 59 32);
      is_open = scanned.2 == 79;
      users = [];
    }

unfoldable pub get_group : List ℕ → SametimeList → SametimeList
get_group line l = record l { groups = l.groups ++ (group_of line ∷ []) }

-- What sscanf sets of id and name in "U %s %s".
abbrev pub id_and_name : List ℕ → Option (List ℕ × List ℕ) → List ℕ × List ℕ
id_and_name id none = (id, [])
id_and_name id (some r) = (id, r.0)

abbrev pub with_id : Option (List ℕ × List ℕ) → List ℕ × List ℕ
with_id none = ([], [])
with_id (some r) = id_and_name r.0 (scan_word (skip_blanks r.1))

abbrev pub scan_user : Option (List ℕ) → List ℕ × List ℕ
scan_user none = ([], [])
scan_user (some cs) = with_id (scan_word (skip_blanks cs))

-- strstr(idb.user, "::"): the text before it
abbrev pub put_before : ℕ → Option (List ℕ) → Option (List ℕ)
put_before c none = none
put_before c (some cs) = some (c ∷ cs)

unfoldable pub before_colons : List ℕ → Option (List ℕ)
before_colons [] = none
before_colons (c ∷ []) = none
before_colons (c ∷ d ∷ ds) =
    let rest = before_colons (d ∷ ds) in
    if c == 58 then if d == 58 then some [] else put_before c rest else put_before c rest

-- The id and the character of its type; `none` where the code writes before the start of the text.
abbrev pub type_before : Option (List ℕ) → List ℕ → Option (List ℕ × ℕ)
type_before none id = some (id, 49)
type_before (some []) id = none
type_before (some (c ∷ cs)) id = some (cut_last c cs)

abbrev pub cut_user : List ℕ → Option (List ℕ × ℕ)
cut_user id = type_before (before_colons id) id

-- strrchr(name, ','): what is before and behind it
abbrev pub comma_or : ℕ → List ℕ → Option (List ℕ × List ℕ) → Option (List ℕ × List ℕ)
comma_or c cs none = if c == 44 then some ([], cs) else none
comma_or c cs (some r) = some (c ∷ r.0, r.1)

unfoldable pub last_comma : List ℕ → Option (List ℕ × List ℕ)
last_comma [] = none
last_comma (c ∷ cs) = comma_or c cs (last_comma cs)

-- The name and the alias.
abbrev pub alias_or_none : List ℕ → Str
alias_or_none [] = none
alias_or_none (c ∷ cs) = some (c ∷ cs)

abbrev pub cut_names : List ℕ → Option (List ℕ × List ℕ) → List ℕ × Str
cut_names name none = (name, none)
cut_names name (some r) = (r.0, alias_or_none r.1)

abbrev pub make_user : List ℕ × ℕ → List ℕ × Str → SametimeUser
make_user id names = record {
  type_ = user_char_to_type id.1;
  id = record { user = some id.0; community = none };
  name = some names.0;
  alias = names.1;
}

abbrev pub user_if : Option (List ℕ × ℕ) → List ℕ × Str → Option SametimeUser
user_if none names = none
user_if (some id) names = some (make_user id names)

-- The user of a line; `none` where the code writes before the start of a text.
unfoldable pub user_of : List ℕ → Option SametimeUser
user_of line =
    let scanned = scan_user (scan_literal (85 ∷ []) line) in
    let name = str_replace scanned.1 59 32 in
    user_if (cut_user (str_replace scanned.0 59 32)) (cut_names name (last_comma name))

-- The user is appended to the group that was read last, which is the last of the list.
unfoldable pub add_user : SametimeUser → List SametimeGroup → List SametimeGroup
add_user u [] = []
add_user u (g ∷ []) = record g { users = g.users ++ (u ∷ []) } ∷ []
add_user u (g ∷ h ∷ gs) = g ∷ add_user u (h ∷ gs)

abbrev pub get_user : List ℕ → SametimeList → Option SametimeList
get_user line l = elim (user_of line) [
  | none ↦ none
  | some u ↦ some (record l { groups = add_user u l.groups })
]

-- The second loop of fetch_line: to the end of the line, which is cut off with one character of it.
unfoldable pub to_end : List ℕ → List ℕ × List ℕ
to_end [] = ([], [])
to_end (c ∷ cs) =
    let rest = to_end cs in if c == 10 || c == 13 then ([], cs) else (c ∷ rest.0, rest.1)

abbrev pub line_from : List ℕ → Option (List ℕ × List ℕ)
line_from [] = none
line_from (c ∷ cs) = let rest = to_end cs in some (c ∷ rest.0, rest.1)

-- The switch of list_get: the list, and whether a group was read, without which a user's line
-- reads and writes through NULL.
unfoldable pub on_line : List ℕ → Bool → SametimeList → Option (Bool × SametimeList)
on_line [] has_group l = some (has_group, l)
on_line (c ∷ cs) has_group l =
    if c == 86
    then some (has_group, get_version (c ∷ cs) l)
    else if c == 71
    then some (true, get_group (c ∷ cs) l)
    else if c == 85
    then (if has_group
        then elim (get_user (c ∷ cs) l) [ none ↦ none | some l' ↦ some (true, l') ]
        else none)
    else some (has_group, l)

-- What a run of list_get comes to: the list, memory used that is not the code's own, or no more
-- fuel.
pub data Loading : Type 0 where
  loaded : SametimeList → Loading
  undefined : Loading
  unfinished : Loading

-- `is_space` is g_ascii_isspace.
module _ (is_space : ℕ → Bool) where
  -- The first loop of fetch_line, to the first character that is no space.
  unfoldable pub skip_space : List ℕ → List ℕ
  skip_space [] = []
  skip_space (c ∷ cs) = let rest = skip_space cs in if is_space c then rest else c ∷ cs

  abbrev pub fetch_line : List ℕ → Option (List ℕ × List ℕ)
  fetch_line cs = line_from (skip_space cs)

  -- The loop of list_get, on fuel: each line is at least one character of the text.
  unfoldable pub list_get_from : ℕ → List ℕ → Bool → SametimeList → Loading
  list_get_from zero cs has_group l = unfinished
  list_get_from (suc n) cs has_group l = elim (fetch_line cs) [
    | none ↦ loaded l
    | some line ↦ elim (on_line line.0 has_group l) [
      | none ↦ undefined
      | some next ↦ list_get_from n line.1 next.0 next.1
    ]
  ]

  abbrev pub list_get : List ℕ → SametimeList → Loading
  list_get cs l = list_get_from (suc (length cs)) cs false l

  -- mwSametimeList_load
  abbrev pub sametime_list_load : List ℕ → Loading
  sametime_list_load cs = list_get cs sametime_list_new

  -- What is read of a string, up to its terminating zero.
  abbrev pub list_of : SametimeList → Str → Loading
  list_of l none = loaded l
  list_of l (some cs) = list_get (take (strlen cs) cs) l

  -- mwSametimeList_get
  unfoldable pub sametime_list_get : SametimeList → Get Loading
  sametime_list_get l = do str ← string_get; pure (list_of l str)
