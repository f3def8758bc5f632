-- ===== src/Witnesses/Whole.antt =====
-- Whole messages: a request for an encrypted channel, with a creator, two cyphers and additional
-- data, and what the reader does with half of one.
use meanwhile.Base.{
  ◌⊎◌, ◌≢◌, ℕ, ◌+◌, ◌≤◌, ◌<◌, ◌≡◌, refl, arith, true, false, Option, none, some, List, [], ◌∷◌,
  ◌++◌, length, ◌^◌,
}
use meanwhile.Buffer.Opaque.{opaque_of, opaque_empty}
use meanwhile.Buffer.Put.{put_buffer_new, put_buffer_finalize}
use meanwhile.Buffer.Put.Laws.{filled, max_wire}
use meanwhile.Buffer.Get.{GetBuffer, get_buffer_new}
use meanwhile.Buffer.Get.Laws.{Reads}
use meanwhile.Buffer.Get.Safe.{IsValid}
use meanwhile.Basic.{Str}
use meanwhile.Basic.Wire.{wire16, wire32, wire_bool, wire_str, wire_opaque, text, str_of, IsStr}
use meanwhile.Common.LoginInfo.{LoginInfo, wire_login_info, IsLoginInfo}
use meanwhile.Common.Ids.{wire_id_block}
use meanwhile.Common.EncryptItem.{EncryptItem, wire_encrypt_item}
use meanwhile.Message.Head.{MessageHead, wire_message_head}
use meanwhile.Message.Encrypt.{wire_offer_block, wire_items, wire_enc_offer, wire_offer_items}
use meanwhile.Message.Channel.{ChannelCreate}
use meanwhile.Message.Channel.Wire.{IsChannelCreate, wire_create_front}
use meanwhile.Message.Dispatch.Types.{message_get_unknown, message_new_lem}
use meanwhile.Message.Dispatch.{
  Kind, k_handshake, kind, code, head_of, message_new, Message, channel_create, Uninit, message_get,
  message_put,
}
use meanwhile.Message.Dispatch.Wire.{wire_body, unread, wire_message, IsMessage}
use meanwhile.Message.Dispatch.Laws.{message_get-Reads}
use meanwhile.Message.Dispatch.Promises.{message_get-put, message_put-filled, message_get-IsValid}

abbrev pub garbage : Uninit
garbage = record {
  type_ = 51966;
  options = 47806;
  channel = 3735928559;
  junk = 77;
  skip_ = 9;
  count = 4000000000;
}

abbrev pub alice : LoginInfo
alice = record {
  login_id = some (49 ∷ []);
  type_ = 0x1700;
  user_id = some (97 ∷ 108 ∷ []);
  user_name = some (65 ∷ 108 ∷ []);
  community = none;
  full = true;
  desc = none;
  ip_addr = 2130706433;
  server_id = some (115 ∷ []);
}

abbrev pub cyphers : List EncryptItem
cyphers =
    record { id = 0; info = opaque_empty }
    ∷ record { id = 1; info = opaque_of (1 ∷ 2 ∷ 3 ∷ []) }
    ∷ []

abbrev pub request : ChannelCreate
request = record {
  head = record { type_ = 2; options = 0x8000; channel = 0; attribs = opaque_of (7 ∷ 8 ∷ []) };
  reserved = 0;
  channel = 2147483649;
  target = record { user = some (98 ∷ 111 ∷ 98 ∷ []); community = none };
  service = 0x1000;
  proto_type = 0x1000;
  proto_ver = 3;
  options = 0;
  addtl = opaque_of (0 ∷ 0 ∷ 1 ∷ []);
  creator_flag = true;
  creator = alice;
  encrypt = record { mode = 0x2000; items = cyphers; extra = 0; flag = false };
}

short_str : (s : Str) → str_of (text s) ≡ s → length (text s) < 2 ^ 16 → IsStr s
short_str s e h = record { plain = e; short = h }

alice-IsLoginInfo : IsLoginInfo alice
alice-IsLoginInfo = record {
  login_id_ok = short_str _ refl (omega arith);
  type_ok = omega arith;
  user_id_ok = short_str _ refl (omega arith);
  user_name_ok = short_str _ refl (omega arith);
  community_ok = short_str _ refl (omega arith);
  desc_ok = short_str _ refl (omega arith);
  ip_addr_ok = omega arith;
  server_id_ok = short_str _ refl (omega arith);
  brief = λ e. cc;
}

request-IsChannelCreate : IsChannelCreate request
unfolding wire_offer_block wire_items wire_encrypt_item wire16 wire32 wire_opaque wire_bool
request-IsChannelCreate = record {
  reserved_ok = omega arith;
  channel_ok = omega arith;
  target_ok = record {
    user_ok = short_str _ refl (omega arith);
    community_ok = short_str _ refl (omega arith);
  };
  service_ok = omega arith;
  proto_type_ok = omega arith;
  proto_ver_ok = omega arith;
  options_ok = omega arith;
  addtl_ok = record { plain = refl; short = omega arith };
  creator_ok = alice-IsLoginInfo;
  brief = λ e. cc;
  encrypt_ok = record {
    mode_ok = omega arith;
    items_ok = (
      record { id_ok = omega arith; info_ok = record { plain = refl; short = omega arith } },
      (record { id_ok = omega arith; info_ok = record { plain = refl; short = omega arith } }, tt),
    );
    count_ok = omega arith;
    extra_ok = omega arith;
    short = omega arith;
    brief = λ e. cc;
  };
}

pub request-IsMessage : IsMessage (channel_create request)
request-IsMessage = record {
  head_ok = record {
    type_ok = omega arith;
    options_ok = omega arith;
    channel_ok = omega arith;
    attribs_ok = record { plain = refl; short = omega arith };
    brief = λ e. cc;
  };
  typed = refl;
  body_ok = request-IsChannelCreate;
}

request_small :
    2 + length (wire_message (channel_create request) ++ unread (channel_create request)) ≤ max_wire
unfolding wire_message wire_message_head wire_body wire_id_block wire_login_info wire_enc_offer
    wire_offer_block wire_items wire_encrypt_item wire16 wire32 wire_opaque wire_bool
    wire_create_front wire_offer_items wire_str
request_small = omega arith

message_get-put_example :
    let r = message_get garbage (
      get_buffer_new
        (some (put_buffer_finalize (message_put (channel_create request) put_buffer_new)))) in
    (r.0 ≡ some (channel_create request)) × (r.1.error ≡ false)
message_get-put_example =
    message_get-put garbage (channel_create request) request-IsMessage refl
      (omega (arith, request_small))

message_put-filled_example :
    (spare' : List (Option ℕ)) × (message_put
        (channel_create request)
        (filled (5 ∷ 6 ∷ []) (none ∷ []))
      ≡ filled
          ((5 ∷ 6 ∷ [])
            ++ (wire_message (channel_create request) ++ unread (channel_create request)))
          spare')
message_put-filled_example =
    message_put-filled (channel_create request) (5 ∷ 6 ∷ []) (none ∷ []) request-IsMessage refl
      request_small

message_get-Reads_example :
    Reads
      (message_get garbage)
      (wire_message (channel_create request))
      (some (channel_create request))
message_get-Reads_example = message_get-Reads garbage (channel_create request) request-IsMessage

-- Half of a head.
abbrev half : GetBuffer
half = record { buf = 0 ∷ 2 ∷ 128 ∷ []; len = 3; ptr = 0; rem = 3; wrap = false; error = false }

message_get-IsValid_example :
    let b' = (message_get garbage half).1 in
    IsValid b' × ((b'.buf ≡ half.buf) × (half.ptr ≤ b'.ptr))
message_get-IsValid_example =
    message_get-IsValid garbage half (record { whole = refl; place = refl })

-- The same after an error.
abbrev failed : GetBuffer
failed = record half { ptr = 2; rem = 1; error = true }

-- No message has the type 5.
five_unknown : (k : Kind) → code k ≢ 5
five_unknown k_handshake = λ e. absurd (omega arith)
five_unknown _ = λ e. absurd (omega arith)

abbrev strange : MessageHead
strange = record { type_ = 5; options = 0x8000; channel = 1; attribs = opaque_of (7 ∷ []) }

message_get_unknown_example : Reads (message_get garbage) (wire_message_head strange) none
message_get_unknown_example =
    message_get_unknown garbage strange
      (record {
        type_ok = omega arith;
        options_ok = omega arith;
        channel_ok = omega arith;
        attribs_ok = record { plain = refl; short = omega arith };
        brief = λ e. cc;
      })
      five_unknown

message_new_lem_example :
    ((m : Message) × (message_new 6 ≡ some m) × (code (kind m) ≡ 6) × ((head_of m).type_ ≡ 6))
    ⊎ ((message_new 6 ≡ none) × ((k : Kind) → code k ≢ 6))
message_new_lem_example = message_new_lem 6
