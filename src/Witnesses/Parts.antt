-- ===== src/Witnesses/Parts.antt =====
-- Buffers, basic types and the structs of common.c and message.c at concrete bytes.
use meanwhile.Base.{
  ℕ, zero, suc, ap, length-take, length-replicate, ◌+◌, ◌≤◌, ◌≡◌, refl, arith, true, false, none,
  some, List, [], ◌∷◌, ◌++◌, length, take, drop, replicate, ◌^◌, ◌%◌,
}
use mathlib.Core.List.{reverse}
use mathlib.Core.Logic.{◌↔◌}
use meanwhile.Buffer.Opaque.{opaque_of, opaque_empty}
use meanwhile.Buffer.Put.{Cell, grow, ensure_buffer}
use meanwhile.Buffer.Put.Laws.{filled, grow_room, ensure_buffer-filled}
use meanwhile.Buffer.Get.{GetBuffer}
use meanwhile.Buffer.Get.Laws.{Reads, cursor}
use meanwhile.Basic.{Str, strlen, string_get, guint16_get, guint16_peek}
use meanwhile.Basic.Wire.{wire16, wire32, wire_bool, wire_str, wire_opaque, text, str_of, IsStr}
use meanwhile.Basic.Limits.{string_get_overflow, guint16_peek-get}
use meanwhile.Common.LoginInfo.{login_info_zero}
use meanwhile.Common.PrivacyInfo.{
  IsPrivacyInfo, PrivacyInfo, privacy_info_zero, privacy_info_get, wire_privacy_info,
}
use meanwhile.Common.PrivacyInfo.Laws.{privacy_info_get-Reads}
use meanwhile.Common.UserStatus.{UserStatus, wire_user_status}
use meanwhile.Common.Ids.{
  AwareIdBlock, aware_id_block_equal, aware_id_block_clone, aware_id_block_hash,
  aware_id_block_zero, wire_aware_id_block, streq,
}
use meanwhile.Common.Ids.Equality.{aware_id_block_equal_iff, aware_id_block_hash-equal}
use meanwhile.Common.Clones.{aware_snapshot_clone_lem}
use meanwhile.Common.Snapshot.{
  IsSnapshot, aware_snapshot_clone, Snapshot, snapshot_zero, aware_snapshot_get, wire_snapshot,
}
use meanwhile.Common.Snapshot.Laws.{aware_snapshot_get-cursor}
use meanwhile.Message.Head.{message_head_zero}
use meanwhile.Message.Encrypt.{
  EncryptOffer, encrypt_offer_zero, enc_offer_get, wire_enc_offer, wire_offer_block, wire_items,
  EncryptAccept,
}
use meanwhile.Message.Encrypt.Laws.{enc_offer_get-Reads}
use meanwhile.Common.EncryptItem.{wire_encrypt_item}
use meanwhile.Message.Announce.{
  Announce, announce_zero, announce_get, wire_announce, recipients_get,
}
use meanwhile.Message.Announce.Laws.{announce_get-Reads, recipients_get_flood}

abbrev bob : Str
bob = some (98 ∷ 111 ∷ 98 ∷ [])

abbrev cat : Str
cat = some (99 ∷ 97 ∷ 116 ∷ [])

bob-IsStr : IsStr bob
bob-IsStr = record { plain = refl; short = omega arith }

cat-IsStr : IsStr cat
cat-IsStr = record { plain = refl; short = omega arith }

none-IsStr : IsStr none
none-IsStr = record { plain = refl; short = omega arith }

grow_room_example : 1000 + 5000 ≤ grow 64 1024 1000 5000
grow_room_example =
    grow_room 64 1024 1000 5000 (omega arith) (omega arith) (omega arith) (omega arith)

ensure_buffer-filled_example :
    (spare' : List Cell) × (ensure_buffer 7 (filled (1 ∷ 2 ∷ []) (none ∷ []))
      ≡ filled (1 ∷ 2 ∷ []) spare')
    × (7 ≤ length spare')
ensure_buffer-filled_example = ensure_buffer-filled (1 ∷ 2 ∷ []) (none ∷ []) 7 (omega arith)

abbrev failed : GetBuffer
failed = record { buf = 0 ∷ 2 ∷ 128 ∷ []; len = 3; ptr = 2; rem = 1; wrap = false; error = true }

guint16_peek-get_example :
    let b = cursor (wire16 513 ++ (7 ∷ [])) (wire16 65535 ++ (1 ∷ [])) false in
    (guint16_peek b ≡ 513) × ((guint16_get 0 b).0 ≡ 65535)
guint16_peek-get_example =
    guint16_peek-get 0 513 65535 (7 ∷ []) (1 ∷ []) false (omega arith) (omega arith)

abbrev away : UserStatus
away = record { status = 0x60; time = 1700000000; desc = some (98 ∷ 114 ∷ 98 ∷ []) }

abbrev watchers : PrivacyInfo
watchers = record {
  deny = true;
  count = 2;
  users =
      record { full = true; id = bob; community = none; name = cat }
      ∷ record { full = false; id = cat; community = bob; name = none }
      ∷ [];
}

watchers-IsPrivacyInfo : IsPrivacyInfo watchers
watchers-IsPrivacyInfo = record {
  count_ok = omega arith;
  counted = refl;
  users_ok = (
    record { id_ok = bob-IsStr; community_ok = none-IsStr; name_ok = cat-IsStr; brief = λ e. cc },
    (
      record {
        id_ok = cat-IsStr;
        community_ok = bob-IsStr;
        name_ok = none-IsStr;
        brief = λ e. refl;
      },
      tt,
    ),
  );
}

privacy_info_get-Reads_example :
    Reads (privacy_info_get privacy_info_zero) (wire_privacy_info watchers) watchers
privacy_info_get-Reads_example = privacy_info_get-Reads watchers watchers-IsPrivacyInfo

abbrev watched : AwareIdBlock
watched = record { type_ = 2; user = bob; community = none }

aware_id_block_equal_iff_example : (aware_id_block_equal watched watched ≡ true) ↔ (
    aware_id_block_clone aware_id_block_zero watched
    ≡ aware_id_block_clone aware_id_block_zero watched)
aware_id_block_equal_iff_example = aware_id_block_equal_iff aware_id_block_zero watched watched

same_watched : aware_id_block_equal watched watched ≡ true
unfolding aware_id_block_equal streq
same_watched = refl

aware_id_block_hash-equal_example :
    aware_id_block_hash (λ cs. 5381 + length cs) (some watched)
    ≡ aware_id_block_hash (λ cs. 5381 + length cs) (some watched)
aware_id_block_hash-equal_example =
    aware_id_block_hash-equal (λ cs. 5381 + length cs) watched watched same_watched

abbrev team : Snapshot
team = record {
  id = watched;
  group = cat;
  online = true;
  alt_id = bob;
  status = record { status = 0x20; time = 0; desc = none };
  name = cat;
}

team-IsSnapshot : IsSnapshot team
team-IsSnapshot = record {
  id_ok = record { type_ok = omega arith; user_ok = bob-IsStr; community_ok = none-IsStr };
  group_ok = cat-IsStr;
  alt_id_ok = bob-IsStr;
  status_ok = record { status_ok = omega arith; time_ok = omega arith; desc_ok = none-IsStr };
  name_ok = cat-IsStr;
  untimed = refl;
  brief = λ e. cc;
}

aware_snapshot_get-cursor_example :
    aware_snapshot_get 9 snapshot_zero
      (cursor (6 ∷ []) (wire32 41 ++ (wire_snapshot team ++ ((0 ∷ 0 ∷ 0 ∷ []) ++ (8 ∷ [])))) true)
    ≡ (
      team,
      cursor ((((6 ∷ []) ++ wire32 41) ++ wire_snapshot team) ++ (0 ∷ 0 ∷ 0 ∷ [])) (8 ∷ []) true,
    )
unfolding wire_snapshot wire_aware_id_block wire_user_status wire_str wire16 wire32 wire_bool
aware_snapshot_get-cursor_example =
    aware_snapshot_get-cursor 9 41 team (6 ∷ []) (0 ∷ 0 ∷ 0 ∷ []) (8 ∷ []) true team-IsSnapshot
      (omega arith) (omega arith)

aware_snapshot_clone_lem_example : aware_snapshot_clone snapshot_zero team ≡ team
aware_snapshot_clone_lem_example = aware_snapshot_clone_lem team team-IsSnapshot

abbrev offer : EncryptOffer
offer = record {
  mode = 0x2000;
  items =
      record { id = 0; info = opaque_empty }
      ∷ record { id = 1; info = opaque_of (1 ∷ 2 ∷ []) }
      ∷ [];
  extra = 5;
  flag = true;
}

enc_offer_get-Reads_example :
    Reads (enc_offer_get (77, 78) encrypt_offer_zero) (wire_enc_offer offer) offer
unfolding wire_offer_block wire_items wire_encrypt_item wire16 wire32 wire_opaque wire_bool
enc_offer_get-Reads_example =
    enc_offer_get-Reads (77, 78) offer
      (record {
        mode_ok = omega arith;
        items_ok = (
          record { id_ok = omega arith; info_ok = record { plain = refl; short = omega arith } },
          (
            record { id_ok = omega arith; info_ok = record { plain = refl; short = omega arith } },
            tt,
          ),
        );
        count_ok = omega arith;
        extra_ok = omega arith;
        short = omega arith;
        brief = λ e. cc;
      })

abbrev choice : EncryptAccept
choice = record {
  mode = 0x1000;
  item = some (record { id = 1; info = opaque_of (1 ∷ 2 ∷ []) });
  extra = 0;
  flag = false;
}

abbrev notice : Announce
notice = record {
  head = message_head_zero;
  sender_present = false;
  sender = login_info_zero;
  unknown_a = 3;
  may_reply = true;
  text = cat;
  recipients = bob ∷ cat ∷ [];
}

announce_get-Reads_example :
    Reads
      (announce_get 77 (announce_zero message_head_zero))
      (wire_announce notice)
      (record notice { recipients = reverse (bob ∷ cat ∷ []) })
announce_get-Reads_example = announce_get-Reads 77 notice (record {
  sender_ok = record {
    login_id_ok = none-IsStr;
    type_ok = omega arith;
    user_id_ok = none-IsStr;
    user_name_ok = none-IsStr;
    community_ok = none-IsStr;
    desc_ok = none-IsStr;
    ip_addr_ok = omega arith;
    server_id_ok = none-IsStr;
    brief = λ e. (refl, refl, refl);
  };
  brief = λ e. refl;
  unknown_a_ok = omega arith;
  text_ok = cat-IsStr;
  count_ok = omega arith;
  recipients_ok = (bob-IsStr, (cat-IsStr, tt));
})

recipients_get_flood_example :
    recipients_get 3 (bob ∷ []) failed ≡ (none ∷ none ∷ none ∷ bob ∷ [], failed)
recipients_get_flood_example = recipients_get_flood 3 (bob ∷ []) failed refl

-- A text of so many letters.
ones : ℕ → List ℕ
ones n = replicate n 1

strlen-ones : (n : ℕ) → strlen (replicate n 1) ≡ n
strlen-ones zero = refl
strlen-ones (suc n) = ap suc (strlen-ones n)

ones_text : (n : ℕ) → length (text (some (ones n))) ≡ n
unfolding ones
ones_text n = omega (
  arith,
  length-take {A = ℕ} (strlen (replicate n 1)) (replicate n 1),
  strlen-ones n,
  length-replicate {A = ℕ} n 1,
)

string_get_overflow_example :
    let s : Str = some (ones 65540) in
    let n = length (text s) % 2 ^ 16 in
    let seen = take n (text s) in
    string_get (cursor [] (wire_str s ++ []) false)
    ≡ (str_of seen, cursor ([] ++ (wire16 n ++ seen)) (drop n (text s) ++ []) false)
string_get_overflow_example =
    string_get_overflow (some (ones 65540)) [] [] false (omega (arith, ones_text 65540))
