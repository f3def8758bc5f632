-- ===== src/Common/LoginInfo.antt =====
-- struct mwLoginInfo of src/common.c and src/mw_common.h.
pub mod Laws
use meanwhile.Base.{ℕ, ◌≡◌, Bool, true, false, if◌then◌else◌, none, List, ◌++◌}
use meanwhile.Buffer.Put.{Put, ◌>>◌, put_if}
use meanwhile.Buffer.Put.Laws.{bytes_if}
use meanwhile.Buffer.Get.{Get, ◌>>=◌, pure, unless_error, branch}
use meanwhile.Basic.{
  Str, string_put, string_get, guint16_put, guint16_get, guint32_put, guint32_get, gboolean_put,
  gboolean_get,
}
use meanwhile.Basic.Wire.{wire_str, wire16, wire32, wire_bool, IsStr, IsWord16, IsWord32}
use meanwhile.Common.Rules.{strdup}

pub record LoginInfo : Type 0 where
  pub login_id : Str
  pub type_ : ℕ
  pub user_id : Str
  pub user_name : Str
  pub community : Str
  pub full : Bool
  pub desc : Str
  pub ip_addr : ℕ
  pub server_id : Str

abbrev pub login_info_zero : LoginInfo
login_info_zero = record {
  login_id = none;
  type_ = 0;
  user_id = none;
  user_name = none;
  community = none;
  full = false;
  desc = none;
  ip_addr = 0;
  server_id = none;
}

unfoldable pub login_info_put : LoginInfo → Put
login_info_put login = do
  string_put login.login_id
  guint16_put login.type_
  string_put login.user_id
  string_put login.user_name
  string_put login.community
  gboolean_put login.full
  put_if login.full do string_put login.desc; guint32_put login.ip_addr; string_put login.server_id

-- The fields that follow when `full` is set.
unfoldable pub login_info_get_full : LoginInfo → Get LoginInfo
login_info_get_full login = do
  desc ← string_get
  ip_addr ← guint32_get login.ip_addr
  server_id ← string_get
  pure (record login { desc = desc; ip_addr = ip_addr; server_id = server_id })

unfoldable pub login_info_get : LoginInfo → Get LoginInfo
login_info_get login = unless_error login do
  login_id ← string_get
  type_ ← guint16_get login.type_
  user_id ← string_get
  user_name ← string_get
  community ← string_get
  full ← gboolean_get login.full
  let login' : LoginInfo = record login {
    login_id = login_id;
    type_ = type_;
    user_id = user_id;
    user_name = user_name;
    community = community;
    full = full;
  }
  branch full (login_info_get_full login') (pure login')

abbrev pub login_info_clear : LoginInfo → LoginInfo
login_info_clear login = login_info_zero

unfoldable pub login_info_clone : LoginInfo → LoginInfo → LoginInfo
login_info_clone to from =
    let base : LoginInfo = record to {
      login_id = strdup from.login_id;
      type_ = from.type_;
      user_id = strdup from.user_id;
      user_name = strdup from.user_name;
      community = strdup from.community;
      full = from.full;
    } in
    if from.full
    then record base {
      desc = strdup from.desc;
      ip_addr = from.ip_addr;
      server_id = strdup from.server_id;
    }
    else base

unfoldable pub wire_login_info : LoginInfo → List ℕ
wire_login_info l =
    wire_str l.login_id
    ++ (wire16 l.type_
        ++ (wire_str l.user_id
            ++ (wire_str l.user_name
                ++ (wire_str l.community
                    ++ (wire_bool l.full
                        ++ bytes_if l.full
                            (wire_str l.desc ++ (wire32 l.ip_addr ++ wire_str l.server_id)))))))

-- The values that a reader of a zeroed target can give: what is not sent is zero.
pub record IsLoginInfo (l : LoginInfo) : Type 0 where
  pub login_id_ok : IsStr l.login_id
  pub type_ok : IsWord16 l.type_
  pub user_id_ok : IsStr l.user_id
  pub user_name_ok : IsStr l.user_name
  pub community_ok : IsStr l.community
  pub desc_ok : IsStr l.desc
  pub ip_addr_ok : IsWord32 l.ip_addr
  pub server_id_ok : IsStr l.server_id
  pub brief : l.full ≡ false → (l.desc ≡ none) × (l.ip_addr ≡ 0) × (l.server_id ≡ none)
