-- ===== src/Common/Ids.antt =====
-- struct mwIdBlock and struct mwAwareIdBlock of src/common.c and src/mw_common.h.
pub mod Laws
pub mod Equality
use meanwhile.Base.{ℕ, Bool, true, false, ◌&&◌, Option, none, some, List, [], ◌∷◌, ◌++◌, take, ◌==◌}
use meanwhile.Buffer.Put.{Put, ◌>>◌}
use meanwhile.Buffer.Get.{Get, ◌>>=◌, pure, unless_error}
use meanwhile.Basic.{Str, strlen, string_put, string_get, guint16_put, guint16_get}
use meanwhile.Basic.Wire.{wire_str, wire16, IsStr, IsWord16}
use meanwhile.Common.Rules.{strdup}

pub record IdBlock : Type 0 where
  pub user : Str
  pub community : Str

abbrev pub id_block_zero : IdBlock
id_block_zero = record { user = none; community = none }

unfoldable pub id_block_put : IdBlock → Put
id_block_put id = do string_put id.user; string_put id.community

unfoldable pub id_block_get : IdBlock → Get IdBlock
id_block_get id = unless_error id do
  user ← string_get
  community ← string_get
  pure (record { user = user; community = community })

abbrev pub id_block_clear : IdBlock → IdBlock
id_block_clear id = id_block_zero

unfoldable pub id_block_clone : IdBlock → IdBlock → IdBlock
id_block_clone to from = record to { user = strdup from.user; community = strdup from.community }

-- ! strcmp(a, b), on what lies before the terminating zeros.
abbrev pub same_bytes : List ℕ → List ℕ → Bool
same_bytes [] [] = true
same_bytes [] (d ∷ ds) = false
same_bytes (c ∷ cs) [] = false
same_bytes (c ∷ cs) (d ∷ ds) = (c == d) && same_bytes cs ds

-- mw_streq. Equal pointers have equal texts.
unfoldable pub streq : Str → Str → Bool
streq none none = true
streq none (some ds) = false
streq (some cs) none = false
streq (some cs) (some ds) = same_bytes (take (strlen cs) cs) (take (strlen ds) ds)

-- mwIdBlock_hash, for a given g_str_hash. `none` is a fault: g_str_hash of NULL.
unfoldable pub hash_user : (List ℕ → ℕ) → Str → Option ℕ
hash_user g_str_hash none = none
hash_user g_str_hash (some cs) = some (g_str_hash (take (strlen cs) cs))

unfoldable pub id_block_hash : (List ℕ → ℕ) → Option IdBlock → Option ℕ
id_block_hash g_str_hash none = some 0
id_block_hash g_str_hash (some id) = hash_user g_str_hash id.user

unfoldable pub id_block_equal : IdBlock → IdBlock → Bool
id_block_equal a b = streq a.user b.user && streq a.community b.community

pub record AwareIdBlock : Type 0 where
  pub type_ : ℕ
  pub user : Str
  pub community : Str

abbrev pub aware_id_block_zero : AwareIdBlock
aware_id_block_zero = record { type_ = 0; user = none; community = none }

unfoldable pub aware_id_block_put : AwareIdBlock → Put
aware_id_block_put idb = do guint16_put idb.type_; string_put idb.user; string_put idb.community

unfoldable pub aware_id_block_get : AwareIdBlock → Get AwareIdBlock
aware_id_block_get idb = unless_error idb do
  type_ ← guint16_get idb.type_
  user ← string_get
  community ← string_get
  pure (record { type_ = type_; user = user; community = community })

unfoldable pub aware_id_block_clone : AwareIdBlock → AwareIdBlock → AwareIdBlock
aware_id_block_clone to from = record to {
  type_ = from.type_;
  user = strdup from.user;
  community = strdup from.community;
}

abbrev pub aware_id_block_clear : AwareIdBlock → AwareIdBlock
aware_id_block_clear idb = aware_id_block_zero

unfoldable pub aware_id_block_hash : (List ℕ → ℕ) → Option AwareIdBlock → Option ℕ
aware_id_block_hash g_str_hash none = some 0
aware_id_block_hash g_str_hash (some idb) = hash_user g_str_hash idb.user

unfoldable pub aware_id_block_equal : AwareIdBlock → AwareIdBlock → Bool
aware_id_block_equal a b =
    (a.type_ == b.type_) && (streq a.user b.user && streq a.community b.community)

unfoldable pub wire_id_block : IdBlock → List ℕ
wire_id_block i = wire_str i.user ++ wire_str i.community

unfoldable pub wire_aware_id_block : AwareIdBlock → List ℕ
wire_aware_id_block i = wire16 i.type_ ++ (wire_str i.user ++ wire_str i.community)

pub record IsIdBlock (i : IdBlock) : Type 0 where
  pub user_ok : IsStr i.user
  pub community_ok : IsStr i.community

pub record IsAwareIdBlock (i : AwareIdBlock) : Type 0 where
  pub type_ok : IsWord16 i.type_
  pub user_ok : IsStr i.user
  pub community_ok : IsStr i.community
