-- ===== src/SametimeList/Laws.antt =====
-- A list of contacts that is stored and loaded again.
pub mod Lines
pub mod Users
pub mod Loading
pub mod Groups
pub mod Rounds
pub mod Ends
pub mod Wire
use meanwhile.Base.{ℕ, ◌^◌, ◌<◌, ◌≡◌, Bool, false, none, some, List, length, map, ◌==◌, All}
use meanwhile.SametimeList.{SametimeUser, SametimeGroup, SametimeList}
use meanwhile.SametimeList.Scan.Laws.{IsPlain}
use meanwhile.SametimeList.Store.{or_empty, names_of, alias_of}
use meanwhile.SametimeList.Load.{before_colons, last_comma, alias_or_none}

-- What of a list comes back when it was stored: a user has no community, a user has a name, the alias
-- if there was none, and no empty alias, and a group has an alias, which is its name if it had none.
abbrev pub stored_user : SametimeUser → SametimeUser
stored_user u =
    let names = names_of u.name u.alias in
    record {
      type_ = u.type_;
      id = record { user = u.id.user; community = none };
      name = some names.0;
      alias = alias_or_none names.1;
    }

abbrev pub stored_group : SametimeGroup → SametimeGroup
stored_group g = record g { alias = some (alias_of g); users = map stored_user g.users }

abbrev pub stored_list : SametimeList → SametimeList
stored_list l = record l { groups = map stored_group l.groups }

-- The texts of a user are plain; there is an id, without two colons in it; and there is no comma in
-- the alias, if it stands behind a name.
pub record IsStorableUser (u : SametimeUser) : Type 0 where
  pub id : List ℕ
  pub has_id : u.id.user ≡ some id
  pub plain_id : All IsPlain id
  pub colons : before_colons id ≡ none
  pub plain_name : All IsPlain (names_of u.name u.alias).0
  pub plain_alias : All IsPlain (names_of u.name u.alias).1
  pub commas : last_comma (names_of u.name u.alias).1 ≡ none

-- The texts of a group are plain, and the alias is not empty.
pub record IsStorableGroup (g : SametimeGroup) : Type 0 where
  pub plain_name : All IsPlain g.name
  pub plain_alias : All IsPlain (alias_of g)
  pub has_alias : (length (alias_of g) == 0) ≡ false
  pub users : All IsStorableUser g.users

pub record IsStorable (l : SametimeList) : Type 0 where
  pub major : l.ver_major < 2 ^ 32
  pub minor : l.ver_minor < 2 ^ 32
  pub micro : l.ver_micro < 2 ^ 32
  pub groups : All IsStorableGroup l.groups
