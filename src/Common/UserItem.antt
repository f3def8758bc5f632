-- ===== src/Common/UserItem.antt =====
-- struct mwUserItem of src/common.c and src/mw_common.h.
pub mod Laws
use meanwhile.Base.{ℕ, ◌≡◌, Bool, true, false, if◌then◌else◌, none, List, ◌++◌}
use meanwhile.Buffer.Put.{Put, ◌>>◌, put_if}
use meanwhile.Buffer.Put.Laws.{bytes_if}
use meanwhile.Buffer.Get.{Get, ◌>>=◌, pure, unless_error, branch}
use meanwhile.Basic.{Str, string_put, string_get, gboolean_put, gboolean_get}
use meanwhile.Basic.Wire.{wire_str, wire_bool, IsStr}
use meanwhile.Common.Rules.{strdup}

pub record UserItem : Type 0 where
  pub full : Bool
  pub id : Str
  pub community : Str
  pub name : Str

abbrev pub user_item_zero : UserItem
user_item_zero = record { full = false; id = none; community = none; name = none }

unfoldable pub user_item_put : UserItem → Put
user_item_put user = do
  gboolean_put user.full
  string_put user.id
  string_put user.community
  put_if user.full (string_put user.name)

unfoldable pub user_item_get_name : UserItem → Get UserItem
user_item_get_name user = do name ← string_get; pure (record user { name = name })

unfoldable pub user_item_get : UserItem → Get UserItem
user_item_get user = unless_error user do
  full ← gboolean_get user.full
  id ← string_get
  community ← string_get
  let user' : UserItem = record user { full = full; id = id; community = community }
  branch full (user_item_get_name user') (pure user')

abbrev pub user_item_clear : UserItem → UserItem
user_item_clear user = user_item_zero

unfoldable pub user_item_clone : UserItem → UserItem → UserItem
user_item_clone to from = record to {
  full = from.full;
  id = strdup from.id;
  community = strdup from.community;
  name = if from.full then strdup from.name else none;
}

unfoldable pub wire_user_item : UserItem → List ℕ
wire_user_item u =
    wire_bool u.full
    ++ (wire_str u.id ++ (wire_str u.community ++ bytes_if u.full (wire_str u.name)))

-- What a reader of a zeroed target can give.
pub record IsUserItem (u : UserItem) : Type 0 where
  pub id_ok : IsStr u.id
  pub community_ok : IsStr u.community
  pub name_ok : IsStr u.name
  pub brief : u.full ≡ false → u.name ≡ none
