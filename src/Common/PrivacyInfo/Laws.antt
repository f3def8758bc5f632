-- ===== src/Common/PrivacyInfo/Laws.antt =====
-- Writing and reading a privacy list.
use meanwhile.Base.{
  ℕ, zero, suc, ◌≤◌, ◌<◌, ◌≡◌, refl, ap, arith, Bool, List, [], ◌∷◌, ◌++◌, length, drop, drop_all,
  append-nil, get_or-replicate, suc_not_zero, set, replicate, All, ◌==◌,
}
use mathlib.Core.Path.{subst}
use meanwhile.Buffer.Put.Laws.{Writes, Writes->>, skip-Writes}
use meanwhile.Buffer.Get.{branch, pure}
use meanwhile.Buffer.Get.Laws.{
  Reads, Reads->>=, Reads-end, pure-Reads, unless_error-Reads, branch-true-Reads,
  branch-false-Reads,
}
use meanwhile.Buffer.Get.Safe.{IsReader, IsReader->>=, pure-IsReader}
use meanwhile.Basic.Writes.{gboolean_put-Writes, guint32_put-Writes}
use meanwhile.Basic.Reads.{guint32_get-Reads, gboolean_get-Reads}
use meanwhile.Common.Rules.{safe_readers}
use meanwhile.Common.UserItem.{UserItem, user_item_zero, IsUserItem}
use meanwhile.Common.UserItem.Laws.{
  user_item_put-Writes, user_item_get-IsReader, user_item_get-Reads,
}
use meanwhile.Common.PrivacyInfo.{
  PrivacyInfo, privacy_info_zero, user_at, users_put, privacy_info_put, users_get,
  privacy_users_get, privacy_info_get, wire_users, wire_privacy_info, IsPrivacyInfo,
}

users_put-Writes : (c : ℕ) (users : List UserItem) → Writes (users_put c users) (wire_users c users)
unfolding users_put wire_users
users_put-Writes zero users = skip-Writes
users_put-Writes (suc c) users =
    Writes->> (user_item_put-Writes (user_at users c)) (users_put-Writes c users)

pub privacy_info_put-Writes : (p : PrivacyInfo) → Writes (privacy_info_put p) (wire_privacy_info p)
unfolding privacy_info_put wire_privacy_info
privacy_info_put-Writes p =
    Writes->> (gboolean_put-Writes p.deny)
      (Writes->> (guint32_put-Writes p.count) (users_put-Writes p.count p.users))

users_get-IsReader : (c : ℕ) (users : List UserItem) → IsReader (users_get c users)
unfolding users_get
users_get-IsReader zero users = pure-IsReader users
users_get-IsReader (suc c) users =
    IsReader->>= _ (user_item_get-IsReader (user_at users c))
      (λ u. users_get-IsReader c (set users c u))

pub privacy_info_get-IsReader : (old : PrivacyInfo) → IsReader (privacy_info_get old)
unfolding privacy_info_get privacy_users_get
privacy_info_get-IsReader old = search (safe_readers, users_get-IsReader) depth 10

-- The array while the first `c` of its users are not yet read.
abbrev pub half_read : ℕ → List UserItem → List UserItem
half_read c us = replicate c user_item_zero ++ drop c us

pub set-half_read :
    (c : ℕ) (us : List UserItem)
    → c < length us
    → set (half_read (suc c) us) c (user_at us c) ≡ half_read c us
set-half_read c [] h = elim h [ ]
set-half_read zero (u ∷ us) h = refl
set-half_read (suc c) (u ∷ us) h = ap (◌∷◌ user_item_zero) (set-half_read c us (omega arith))

pub half_read_done :
    (us : List UserItem) → half_read (length us) us ≡ replicate (length us) user_item_zero
half_read_done us = rw (drop_all us, append-nil)

pub All-user_at :
    (c : ℕ) (us : List UserItem) → c < length us → All IsUserItem us → IsUserItem (user_at us c)
All-user_at c [] h a = elim h [ ]
All-user_at zero (u ∷ us) h a = a.0
All-user_at (suc c) (u ∷ us) h a = All-user_at c us (omega arith) a.1

users_get-Reads :
    (c : ℕ) (us : List UserItem)
    → c ≤ length us
    → All IsUserItem us
    → Reads (users_get c (half_read c us)) (wire_users c us) us
unfolding users_get wire_users
users_get-Reads zero us h a = pure-Reads us
users_get-Reads (suc c) us h a =
    let u : UserItem = user_at us c in
    rw (get_or-replicate c user_item_zero (drop (suc c) us)) (
      Reads->>= _ (user_item_get-Reads u (All-user_at c us (omega arith) a))
        (rw (set-half_read c us (omega arith)) (users_get-Reads c us (omega arith) a)))

privacy_rest :
    (d : Bool) (us : List UserItem)
    → All IsUserItem us
    → Reads
        (privacy_users_get (record { deny = d; count = length us; users = [] }))
        (wire_users (length us) us)
        (record { deny = d; count = length us; users = us })
unfolding privacy_users_get
privacy_rest d us a =
    Reads-end _ (rw (← half_read_done us) (users_get-Reads (length us) us (omega arith) a))
      (pure-Reads _)

-- What is left to read behind the flag `d` and the count `c` gives the users `us`.
abbrev ReadsUsers : Bool → List UserItem → ℕ → Type 0
ReadsUsers d us c =
    let info : PrivacyInfo = record { deny = d; count = c; users = [] } in
    Reads (branch (c == 0) (pure info) (privacy_users_get info)) (wire_users c us)
      (record { deny = d; count = c; users = us })

privacy_branch : (d : Bool) (us : List UserItem) → All IsUserItem us → ReadsUsers d us (length us)
privacy_branch d [] a = branch-true-Reads _ refl (unfold wire_users in pure-Reads _)
privacy_branch d (u ∷ us) a =
    branch-false-Reads _ (suc_not_zero (length us)) (privacy_rest d (u ∷ us) a)

-- mwPrivacyInfo_get into a zeroed struct takes exactly the wire format of a privacy list that
-- fits the wire, in which the last user comes first, and gives the list.
pub privacy_info_get-Reads :
    (p : PrivacyInfo)
    → IsPrivacyInfo p
    → Reads (privacy_info_get privacy_info_zero) (wire_privacy_info p) p
unfolding privacy_info_get wire_privacy_info
privacy_info_get-Reads p h = unless_error-Reads privacy_info_zero (
    Reads->>= _ (gboolean_get-Reads _ _) (
      Reads->>= _ (guint32_get-Reads _ _ h.count_ok)
        (subst (ReadsUsers p.deny p.users) h.counted (privacy_branch p.deny p.users h.users_ok))))
