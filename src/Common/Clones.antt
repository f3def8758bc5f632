-- ===== src/Common/Clones.antt =====
-- What the _clone functions of src/common.c keep of a struct.
use meanwhile.Base.{
  ℕ, zero, suc, ◌≤◌, ◌≡◌, refl, arith, none, some, List, [], ◌∷◌, All, length, take, if◌then◌else◌,
  replicate,
}
use meanwhile.Basic.{Str, strlen}
use meanwhile.Basic.Wire.{IsStr, str_of}
use meanwhile.Common.Rules.{strdup}
use meanwhile.Common.LoginInfo.{LoginInfo, login_info_zero, login_info_clone, IsLoginInfo}
use meanwhile.Common.UserItem.{UserItem, user_item_zero, user_item_clone, IsUserItem}
use meanwhile.Common.PrivacyInfo.{
  PrivacyInfo, user_at, users_clone, privacy_info_clone, IsPrivacyInfo,
}
use meanwhile.Common.PrivacyInfo.Laws.{half_read, set-half_read, half_read_done, All-user_at}
use meanwhile.Common.UserStatus.{user_status_clone}
use meanwhile.Common.Ids.{aware_id_block_clone}
use meanwhile.Common.Snapshot.{Snapshot, snapshot_zero, aware_snapshot_clone, IsSnapshot}

-- A text that a reader makes a string of is duplicated whole.
kept : (seen cs : List ℕ) → str_of seen ≡ some cs → some seen ≡ some cs
kept [] cs e = cc
kept (c ∷ seen) cs e = e

strdup_lem : (s : Str) → IsStr s → strdup s ≡ s
strdup_lem none h = refl
strdup_lem (some cs) h = kept (take (strlen cs) cs) cs h.plain

pub login_info_clone_lem : (l : LoginInfo) → IsLoginInfo l → login_info_clone login_info_zero l ≡ l
unfolding login_info_clone
login_info_clone_lem l h = ground (
  arith,
  strdup_lem l.login_id h.login_id_ok,
  strdup_lem l.user_id h.user_id_ok,
  strdup_lem l.user_name h.user_name_ok,
  strdup_lem l.community h.community_ok,
  strdup_lem l.desc h.desc_ok,
  strdup_lem l.server_id h.server_id_ok,
  h.brief,
)

user_item_clone_lem : (to u : UserItem) → IsUserItem u → user_item_clone to u ≡ u
unfolding user_item_clone
user_item_clone_lem to u h = ground (
  arith,
  strdup_lem u.id h.id_ok,
  strdup_lem u.community h.community_ok,
  strdup_lem u.name h.name_ok,
  h.brief,
)

users_clone_lem :
    (c : ℕ) (us : List UserItem)
    → c ≤ length us
    → All IsUserItem us
    → users_clone c (half_read c us) us ≡ us
unfolding users_clone
users_clone_lem zero us h a = refl
users_clone_lem (suc c) us h a =
    rw
      (
        user_item_clone_lem (user_at (half_read (suc c) us) c) (user_at us c)
            (All-user_at c us (omega arith) a),
        set-half_read c us (omega arith),
      )
      (users_clone_lem c us (omega arith) a)

-- mwPrivacyInfo_clone of a privacy list that fits the wire is the same list, whatever the target
-- held.
pub privacy_info_clone_lem :
    (to from : PrivacyInfo) → IsPrivacyInfo from → privacy_info_clone to from ≡ from
unfolding privacy_info_clone
privacy_info_clone_lem to from h =
    let whole : users_clone from.count (replicate from.count user_item_zero) from.users
        ≡ from.users =
      rw (← h.counted, ← half_read_done from.users)
        (users_clone_lem (length from.users) from.users (omega arith) h.users_ok) in
    rw whole refl

-- mwAwareSnapshot_clone into a zeroed struct, of a snapshot that fits the wire with a status time
-- of 0: an online snapshot comes out the same, any other without its group.
pub aware_snapshot_clone_lem :
    (s : Snapshot)
    → IsSnapshot s
    → aware_snapshot_clone snapshot_zero s ≡ (if s.online then s else record s { group = none })
unfolding aware_snapshot_clone aware_id_block_clone user_status_clone
aware_snapshot_clone_lem s h = ground (
  arith,
  strdup_lem s.id.user h.id_ok.user_ok,
  strdup_lem s.id.community h.id_ok.community_ok,
  strdup_lem s.group h.group_ok,
  strdup_lem s.alt_id h.alt_id_ok,
  strdup_lem s.status.desc h.status_ok.desc_ok,
  strdup_lem s.name h.name_ok,
  h.brief,
)
