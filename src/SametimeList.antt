-- ===== src/SametimeList.antt =====
-- The list of contacts of src/st_list.c: a list of groups of users.
pub mod Scan
pub mod Store
pub mod Load
pub mod Laws
use meanwhile.Base.{
  ℕ, zero, suc, Bool, true, false, Option, none, some, List, [], ◌∷◌, ◌++◌, if◌then◌else◌,
}
use meanwhile.Basic.{Str}
use meanwhile.Common.Rules.{strdup}
use meanwhile.Common.Ids.{IdBlock, id_block_zero, id_block_clone, id_block_equal, same_bytes}

pub data GroupType : Type 0 where
  group_unknown group_normal group_dynamic : GroupType

pub data UserType : Type 0 where
  user_unknown user_normal user_external : UserType

pub record SametimeUser : Type 0 where
  pub type_ : UserType
  pub id : IdBlock
  pub name : Str
  pub alias : Str

-- The name of a group is never NULL.
pub record SametimeGroup : Type 0 where
  pub type_ : GroupType
  pub name : List ℕ
  pub alias : Str
  pub is_open : Bool
  pub users : List SametimeUser

pub record SametimeList : Type 0 where
  pub ver_major : ℕ
  pub ver_minor : ℕ
  pub ver_micro : ℕ
  pub groups : List SametimeGroup

abbrev pub sametime_list_new : SametimeList
sametime_list_new = record { ver_major = 3; ver_minor = 1; ver_micro = 3; groups = [] }

-- The first group of a name, which may not be empty.
unfoldable pub first_group : List ℕ → List SametimeGroup → Option SametimeGroup
first_group name [] = none
first_group name (g ∷ gs) =
    let rest = first_group name gs in if same_bytes g.name name then some g else rest

abbrev pub find_group : SametimeList → List ℕ → Option SametimeGroup
find_group l [] = none
find_group l (c ∷ cs) = first_group (c ∷ cs) l.groups

-- mwSametimeGroup_new: the list with the group, or NULL.
abbrev pub group_new : SametimeList → GroupType → List ℕ → Option SametimeList
group_new l type_ [] = none
group_new l type_ (c ∷ cs) = some (record l {
  groups =
      l.groups
      ++ (record { type_ = type_; name = c ∷ cs; alias = none; is_open = false; users = [] } ∷ []);
})

-- mwSametimeUser_new
abbrev pub user_new : SametimeGroup → UserType → IdBlock → SametimeGroup
user_new g type_ id = record g {
  users =
      g.users
      ++ (record { type_ = type_; id = id_block_clone id_block_zero id; name = none; alias = none }
          ∷ []);
}

abbrev pub find_user : List SametimeUser → IdBlock → Option SametimeUser
find_user [] id = none
find_user (u ∷ us) id =
    let rest = find_user us id in if id_block_equal id u.id then some u else rest

-- mwSametimeList_setMajor, mwSametimeList_setMinor and mwSametimeList_setMicro
abbrev pub set_major : SametimeList → ℕ → SametimeList
set_major l v = record l { ver_major = v }

abbrev pub set_minor : SametimeList → ℕ → SametimeList
set_minor l v = record l { ver_minor = v }

abbrev pub set_micro : SametimeList → ℕ → SametimeList
set_micro l v = record l { ver_micro = v }

-- mwSametimeGroup_setAlias and mwSametimeGroup_setOpen
abbrev pub group_set_alias : SametimeGroup → Str → SametimeGroup
group_set_alias g alias = record g { alias = strdup alias }

abbrev pub group_set_open : SametimeGroup → Bool → SametimeGroup
group_set_open g is_open = record g { is_open = is_open }

-- mwSametimeUser_setShortName and mwSametimeUser_setAlias
abbrev pub user_set_short_name : SametimeUser → Str → SametimeUser
user_set_short_name u name = record u { name = strdup name }

abbrev pub user_set_alias : SametimeUser → Str → SametimeUser
user_set_alias u alias = record u { alias = strdup alias }

-- g_list_remove of the element at a place.
abbrev pub drop_at : {A : Type 0} → ℕ → List A → List A
drop_at n [] = []
drop_at zero (a ∷ as_) = as_
drop_at (suc n) (a ∷ as_) = a ∷ drop_at n as_

-- mwSametimeGroup_free of a list's group with its users, and mwSametimeUser_free of a group's user,
-- which are given by their places.
abbrev pub group_free : SametimeList → ℕ → SametimeList
group_free l n = record l { groups = drop_at n l.groups }

abbrev pub user_free : SametimeGroup → ℕ → SametimeGroup
user_free g n = record g { users = drop_at n g.users }
