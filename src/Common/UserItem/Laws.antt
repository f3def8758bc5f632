-- ===== src/Common/UserItem/Laws.antt =====
-- Writing and reading a user of a privacy list.
use meanwhile.Base.{arith, none}
use meanwhile.Buffer.Put.Laws.{Writes, bytes_if}
use meanwhile.Buffer.Get.{branch, pure}
use meanwhile.Buffer.Get.Laws.{Reads, Reads->>=, Reads-end, pure-Reads, unless_error-Reads}
use meanwhile.Buffer.Get.Safe.{IsReader}
use meanwhile.Basic.Reads.{string_get-Reads, gboolean_get-Reads}
use meanwhile.Basic.Wire.{wire_str}
use meanwhile.Common.Rules.{writers, safe_readers, branch-Reads, pure_eq-Reads}
use meanwhile.Common.UserItem.{
  UserItem, user_item_zero, user_item_put, user_item_get_name, user_item_get, wire_user_item,
  IsUserItem,
}

pub user_item_put-Writes : (u : UserItem) → Writes (user_item_put u) (wire_user_item u)
unfolding user_item_put wire_user_item
user_item_put-Writes u = search writers depth 10

pub user_item_get-IsReader : (old : UserItem) → IsReader (user_item_get old)
unfolding user_item_get user_item_get_name
user_item_get-IsReader old = search safe_readers depth 10

abbrev unnamed : UserItem → UserItem
unnamed u = record u { name = none }

user_item_rest :
    (u : UserItem)
    → IsUserItem u
    → Reads
        (branch u.full (user_item_get_name (unnamed u)) (pure (unnamed u)))
        (bytes_if u.full (wire_str u.name))
        u
unfolding user_item_get_name
user_item_rest u h =
    branch-Reads u.full (λ e. Reads-end _ (string_get-Reads _ h.name_ok) (pure-Reads _))
      (λ e. pure_eq-Reads (ground (arith, h.brief e)))

pub user_item_get-Reads :
    (u : UserItem) → IsUserItem u → Reads (user_item_get user_item_zero) (wire_user_item u) u
unfolding user_item_get wire_user_item
user_item_get-Reads u h = unless_error-Reads user_item_zero (
    Reads->>= _ (gboolean_get-Reads _ _) (
      Reads->>= _ (string_get-Reads _ h.id_ok)
        (Reads->>= _ (string_get-Reads _ h.community_ok) (user_item_rest u h))))
