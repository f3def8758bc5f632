-- ===== src/Common/UserStatus.antt =====
-- struct mwUserStatus of src/common.c and src/mw_common.h.
pub mod Laws
use meanwhile.Base.{ℕ, none, List, ◌++◌}
use meanwhile.Buffer.Put.{Put, ◌>>◌}
use meanwhile.Buffer.Get.{Get, ◌>>=◌, pure, unless_error}
use meanwhile.Basic.{
  Str, string_put, string_get, guint16_put, guint16_get, guint32_put, guint32_get,
}
use meanwhile.Basic.Wire.{wire_str, wire16, wire32, IsStr, IsWord16, IsWord32}
use meanwhile.Common.Rules.{strdup}

pub record UserStatus : Type 0 where
  pub status : ℕ
  pub time : ℕ
  pub desc : Str

abbrev pub user_status_zero : UserStatus
user_status_zero = record { status = 0; time = 0; desc = none }

unfoldable pub user_status_put : UserStatus → Put
user_status_put stat = do guint16_put stat.status; guint32_put stat.time; string_put stat.desc

-- The time that was read is replaced by 0 at the end.
unfoldable pub user_status_get : UserStatus → Get UserStatus
user_status_get stat = unless_error stat do
  status ← guint16_get stat.status
  time ← guint32_get stat.time
  desc ← string_get
  let stat' : UserStatus = record { status = status; time = time; desc = desc }
  pure (record stat' { time = 0 })

abbrev pub user_status_clear : UserStatus → UserStatus
user_status_clear stat = user_status_zero

unfoldable pub user_status_clone : UserStatus → UserStatus → UserStatus
user_status_clone to from = record to {
  status = from.status;
  time = from.time;
  desc = strdup from.desc;
}

unfoldable pub wire_user_status : UserStatus → List ℕ
wire_user_status s = wire16 s.status ++ (wire32 s.time ++ wire_str s.desc)

pub record IsUserStatus (s : UserStatus) : Type 0 where
  pub status_ok : IsWord16 s.status
  pub time_ok : IsWord32 s.time
  pub desc_ok : IsStr s.desc
