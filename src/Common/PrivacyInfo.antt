-- ===== src/Common/PrivacyInfo.antt =====
-- struct mwPrivacyInfo of src/common.c and src/mw_common.h. The loops count down: the last user
-- of the array is written, and read, first.
pub mod Laws
use meanwhile.Base.{
  ℕ, zero, suc, ◌≡◌, Bool, false, List, [], ◌∷◌, ◌++◌, length, get_or, set, replicate, All, ◌==◌,
}
use meanwhile.Buffer.Put.{Put, ◌>>◌, skip}
use meanwhile.Buffer.Get.{Get, ◌>>=◌, pure, unless_error, branch}
use meanwhile.Basic.{guint32_put, guint32_get, gboolean_put, gboolean_get}
use meanwhile.Basic.Wire.{wire32, wire_bool, IsWord32}
use meanwhile.Common.UserItem.{
  UserItem, user_item_zero, user_item_put, user_item_get, user_item_clone, wire_user_item,
  IsUserItem,
}

-- `users` is the array that the pointer shows, `[]` for NULL.
pub record PrivacyInfo : Type 0 where
  pub deny : Bool
  pub count : ℕ
  pub users : List UserItem

abbrev pub privacy_info_zero : PrivacyInfo
privacy_info_zero = record { deny = false; count = 0; users = [] }

abbrev pub user_at : List UserItem → ℕ → UserItem
user_at users c = get_or users c user_item_zero

-- for(c = info->count; c--; ) mwUserItem_put(b, info->users + c);
unfoldable pub users_put : ℕ → List UserItem → Put
users_put zero users = skip
users_put (suc c) users = do user_item_put (user_at users c); users_put c users

unfoldable pub privacy_info_put : PrivacyInfo → Put
privacy_info_put info = do
  gboolean_put info.deny
  guint32_put info.count
  users_put info.count info.users

-- while(c--) mwUserItem_get(b, info->users + c);
unfoldable pub users_get : ℕ → List UserItem → Get (List UserItem)
users_get zero users = pure users
users_get (suc c) users = do u ← user_item_get (user_at users c); users_get c (set users c u)

unfoldable pub privacy_users_get : PrivacyInfo → Get PrivacyInfo
privacy_users_get info = do
  users ← users_get info.count (replicate info.count user_item_zero)
  pure (record info { users = users })

unfoldable pub privacy_info_get : PrivacyInfo → Get PrivacyInfo
privacy_info_get info = unless_error info do
  deny ← gboolean_get info.deny
  count ← guint32_get info.count
  let info' : PrivacyInfo = record info { deny = deny; count = count }
  branch (count == 0) (pure info') (privacy_users_get info')

-- while(c--) mwUserItem_clone(to->users+c, from->users+c);
unfoldable pub users_clone : ℕ → List UserItem → List UserItem → List UserItem
users_clone zero to from = to
users_clone (suc c) to from =
    users_clone c (set to c (user_item_clone (user_at to c) (user_at from c))) from

unfoldable pub privacy_info_clone : PrivacyInfo → PrivacyInfo → PrivacyInfo
privacy_info_clone to from = record to {
  deny = from.deny;
  count = from.count;
  users = users_clone from.count (replicate from.count user_item_zero) from.users;
}

-- `deny` is left as it is.
unfoldable pub privacy_info_clear : PrivacyInfo → PrivacyInfo
privacy_info_clear info = record info { count = 0; users = [] }

unfoldable pub wire_users : ℕ → List UserItem → List ℕ
wire_users zero users = []
wire_users (suc c) users = wire_user_item (user_at users c) ++ wire_users c users

unfoldable pub wire_privacy_info : PrivacyInfo → List ℕ
wire_privacy_info p = wire_bool p.deny ++ (wire32 p.count ++ wire_users p.count p.users)

pub record IsPrivacyInfo (p : PrivacyInfo) : Type 0 where
  pub count_ok : IsWord32 p.count
  pub counted : length p.users ≡ p.count
  pub users_ok : All IsUserItem p.users
