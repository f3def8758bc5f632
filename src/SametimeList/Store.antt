-- ===== src/SametimeList/Store.antt =====
-- Writing a list of contacts: mwSametimeList_store and mwSametimeList_put.
use meanwhile.Base.{ℕ, ◌%◌, ◌^◌, Bool, true, false, none, some, List, [], ◌∷◌, ◌++◌, take, length}
use meanwhile.Buffer.Put.{Put, ◌>>◌, put_buffer_write}
use meanwhile.Basic.{Str, guint16_put}
use meanwhile.SametimeList.{
  GroupType, group_unknown, group_normal, group_dynamic, UserType, user_unknown, user_normal,
  user_external, SametimeUser, SametimeGroup, SametimeList,
}
use meanwhile.SametimeList.Scan.{print_number, str_replace}

abbrev pub user_type_to_char : UserType → ℕ
user_type_to_char user_normal = 49
user_type_to_char user_external = 50
user_type_to_char user_unknown = 57

abbrev pub group_type_to_char : GroupType → ℕ
group_type_to_char group_normal = 50
group_type_to_char group_dynamic = 51
group_type_to_char group_unknown = 57

-- if(name) str_replace(name, ' ', ';');
abbrev pub semicolons : Str → Str
semicolons none = none
semicolons (some cs) = some (str_replace cs 32 59)

abbrev pub or_empty : Str → List ℕ
or_empty none = []
or_empty (some cs) = cs

-- What stands for the user's name and alias: the alias moves up when there is no name.
abbrev pub names_of : Str → Str → List ℕ × List ℕ
names_of none alias = (or_empty alias, [])
names_of (some name) alias = (name, or_empty alias)

-- "U %s%c:: %s,%s\r\n". C's printf leaves %s for NULL open; glibc writes "(null)".
unfoldable pub user_line : List ℕ → UserType → List ℕ × List ℕ → List ℕ
user_line id type_ names =
    (85 ∷ 32 ∷ id) ++ ((user_type_to_char type_ ∷ 58 ∷ 58 ∷ 32 ∷ names.0) ++ (44 ∷ names.1))

abbrev pub id_or_null : Str → List ℕ
id_or_null none = 40 ∷ 110 ∷ 117 ∷ 108 ∷ 108 ∷ 41 ∷ []
id_or_null (some cs) = cs

abbrev pub crlf : List ℕ
crlf = 13 ∷ 10 ∷ []

unfoldable pub user_put : SametimeUser → List ℕ
user_put u =
    user_line (id_or_null (semicolons u.id.user)) u.type_
      (names_of (semicolons u.name) (semicolons u.alias))
    ++ crlf

abbrev pub alias_of : SametimeGroup → List ℕ
alias_of g = elim (g.alias) [ none ↦ g.name | some a ↦ a ]

abbrev pub open_char : Bool → ℕ
open_char true = 79
open_char false = 67

-- "G %s%c %s %c\r\n"
unfoldable pub group_line : List ℕ → GroupType → List ℕ → Bool → List ℕ
group_line name type_ alias is_open =
    (71 ∷ 32 ∷ name) ++ ((group_type_to_char type_ ∷ 32 ∷ alias) ++ (32 ∷ open_char is_open ∷ []))

unfoldable pub group_users_put : List SametimeUser → List ℕ
group_users_put [] = []
group_users_put (u ∷ us) = user_put u ++ group_users_put us

unfoldable pub group_put : SametimeGroup → List ℕ
group_put g =
    (group_line (str_replace g.name 32 59) g.type_ (str_replace (alias_of g) 32 59) g.is_open
      ++ crlf)
    ++ group_users_put g.users

unfoldable pub groups_put : List SametimeGroup → List ℕ
groups_put [] = []
groups_put (g ∷ gs) = group_put g ++ groups_put gs

abbrev pub version : List ℕ
version = 86 ∷ 101 ∷ 114 ∷ 115 ∷ 105 ∷ 111 ∷ 110 ∷ 61 ∷ []

-- "Version=%u.%u.%u\r\n"
unfoldable pub version_line : SametimeList → List ℕ
version_line l =
    version
    ++ (print_number l.ver_major
        ++ (46 ∷ print_number l.ver_minor ++ (46 ∷ print_number l.ver_micro)))

-- list_store and mwSametimeList_store
unfoldable pub list_store : SametimeList → List ℕ
list_store l = (version_line l ++ crlf) ++ groups_put l.groups

-- mwSametimeList_put, which writes as much as 16 bits of the length count.
unfoldable pub sametime_list_put : SametimeList → Put
sametime_list_put l =
    let str = list_store l in
    let len = length str % 2 ^ 16 in do guint16_put len; put_buffer_write (take len str)
