-- ===== src/Witnesses/Secure.antt =====
-- The ciphers, and a session that receives what another one sends.
use meanwhile.Base.{
  ℕ, ◌≡◌, ◌≤◌, length, refl, arith, some, List, [], ◌∷◌, ◌++◌, All, map, take, drop, append-nil,
  take-append-drop, ap, ◌∙◌,
}
use meanwhile.Buffer.Opaque.{Opaque, opaque_bytes}
use meanwhile.Basic.{strlen, opaque_clone}
use meanwhile.Cipher.Key.{iv_init, key_expand}
use meanwhile.Cipher.Block.{encrypt_block, decrypt_block}
use meanwhile.Cipher.Block.Laws.{IsByte, decrypt_block-encrypt_block}
use meanwhile.Cipher.Chain.{encrypt_expanded, decrypt_expanded}
use meanwhile.Cipher.Chain.Laws.{IsData, iv_init-IsChain, decrypt_expanded-encrypt_expanded}
use meanwhile.Cipher.Chain.Stream.{send_all}
use meanwhile.Cipher.Rc240.{
  cipher_new_rc2_40, new_instance_rc2_40, accepted_rc2_40, encrypt_rc2_40, decrypt_rc2_40,
}
use meanwhile.Cipher.Rc240.Laws.{rc2_40_channel}
use meanwhile.Cipher.Rc2128.{
  cipher_new_rc2_128, new_instance_rc2_128, offered_rc2_128, offer_rc2_128, encrypt_rc2_128,
  decrypt_rc2_128, dh_rand_keypair, dh_calculate_shared, dh_import_key,
}
use meanwhile.Cipher.Rc2128.Laws.{rc2_128_channel}
use meanwhile.Message.Head.{wire_message_head}
use meanwhile.Basic.Wire.{wire16, wire32, wire_opaque, wire_str, wire_bool}
use meanwhile.Message.Channel.Wire.{wire_create_front}
use meanwhile.Common.Ids.{wire_id_block}
use meanwhile.Common.LoginInfo.{wire_login_info}
use meanwhile.Message.Encrypt.{wire_enc_offer, wire_offer_items, wire_offer_block, wire_items}
use meanwhile.Common.EncryptItem.{wire_encrypt_item}
use meanwhile.Message.Dispatch.{Message, channel_create}
use meanwhile.Message.Dispatch.Wire.{received, wire_body, wire_message}
use meanwhile.Session.Recv.{session_buf_free, session_recv_all}
use meanwhile.Session.Recv.Stream.{feed_all}
use meanwhile.Session.Recv.Buffered.{buffered}
use meanwhile.Session.Recv.Refines.{recv_pieces, session_recv_all-feed_all, session_recv_all-append}
use meanwhile.Session.Send.Laws.{IsSendable, sent, read_message, recv_pieces-sent}
use meanwhile.Session.Auth.{compose_auth_rc2_40}
use meanwhile.Session.Auth.Laws.{read_auth_rc2_40, read_auth-compose_auth_rc2_40}
use meanwhile.Witnesses.Numbers.{numbers, numbers-IsMpi}
use meanwhile.Witnesses.Whole.{garbage, request, request-IsMessage}

abbrev five_bytes : List ℕ
five_bytes = 1 ∷ 2 ∷ 250 ∷ 4 ∷ 5 ∷ []

five_bytes-IsByte : All IsByte five_bytes
five_bytes-IsByte = (omega arith, (omega arith, (omega arith, (omega arith, (omega arith, tt)))))

abbrev plain : List ℕ
plain = 104 ∷ 105 ∷ 0 ∷ 7 ∷ 255 ∷ 1 ∷ 2 ∷ 3 ∷ []

plain-IsByte : All IsByte plain
plain-IsByte = (
  omega arith,
  (
    omega arith,
    (omega arith, (omega arith, (omega arith, (omega arith, (omega arith, (omega arith, tt)))))),
  ),
)

abbrev parcel : Opaque
parcel = record { len = 8; data_ = some plain }

parcel-IsData : IsData parcel
parcel-IsData = record { there = refl; bytes = plain-IsByte; small = omega arith }

abbrev short_parcel : Opaque
short_parcel = record { len = 5; data_ = some five_bytes }

short_parcel-IsData : IsData short_parcel
short_parcel-IsData = record { there = refl; bytes = five_bytes-IsByte; small = omega arith }

abbrev parcels : List Opaque
parcels = parcel ∷ short_parcel ∷ []

parcels-IsData : All IsData parcels
parcels-IsData = (parcel-IsData, (short_parcel-IsData, tt))

decrypt_block-encrypt_block_example :
    decrypt_block (key_expand five_bytes) (encrypt_block (key_expand five_bytes) plain) ≡ plain
decrypt_block-encrypt_block_example =
    decrypt_block-encrypt_block (key_expand five_bytes) plain refl plain-IsByte

decrypt_expanded-encrypt_expanded_example :
    let out = encrypt_expanded (key_expand five_bytes) iv_init short_parcel in
    let back = decrypt_expanded (key_expand five_bytes) iv_init out.1 in
    (back.0 ≡ out.0) × (back.1.len ≡ 5) × (opaque_bytes back.1 ≡ opaque_bytes short_parcel)
decrypt_expanded-encrypt_expanded_example =
    decrypt_expanded-encrypt_expanded (key_expand five_bytes) iv_init short_parcel iv_init-IsChain
      short_parcel-IsData

rc2_40_channel_example :
    let here = new_instance_rc2_40 cipher_new_rc2_40 (some (49 ∷ 50 ∷ 51 ∷ 52 ∷ [])) in
    let there =
      accepted_rc2_40
        (new_instance_rc2_40 cipher_new_rc2_40 (some (51 ∷ []))).1
        (some (49 ∷ 50 ∷ 51 ∷ 52 ∷ [])) in
    map opaque_bytes
      (send_all decrypt_rc2_40 there (send_all (encrypt_rc2_40 here.0) here.1 parcels))
    ≡ map opaque_bytes parcels
rc2_40_channel_example =
    rc2_40_channel cipher_new_rc2_40 (49 ∷ 50 ∷ 51 ∷ 52 ∷ []) (some (51 ∷ [])) parcels (omega arith)
      parcels-IsData

-- The secret of the two sides is 3 ^ 117, which has 24 bytes.
secret_long :
    let a = cipher_new_rc2_128 numbers (1 ∷ 13 ∷ []) in
    let b = cipher_new_rc2_128 numbers (1 ∷ 9 ∷ []) in
    16
    ≤ length (
        numbers.to_unsigned_bin (
          dh_calculate_shared numbers
            (dh_import_key numbers (offer_rc2_128 numbers b).info)
            a.private_key))
unfolding cipher_new_rc2_128 dh_rand_keypair dh_calculate_shared offer_rc2_128 opaque_clone
secret_long = omega arith

rc2_128_channel_example :
    let a = cipher_new_rc2_128 numbers (1 ∷ 13 ∷ []) in
    let b = cipher_new_rc2_128 numbers (1 ∷ 9 ∷ []) in
    let here = offered_rc2_128 numbers [] a new_instance_rc2_128 (offer_rc2_128 numbers b) in
    let there = offered_rc2_128 numbers [] b new_instance_rc2_128 (offer_rc2_128 numbers a) in
    map opaque_bytes (send_all decrypt_rc2_128 there (send_all encrypt_rc2_128 here parcels))
    ≡ map opaque_bytes parcels
rc2_128_channel_example =
    rc2_128_channel numbers numbers-IsMpi [] [] (1 ∷ 13 ∷ []) (1 ∷ 9 ∷ []) parcels secret_long
      parcels-IsData

-- Keeps each message that is received.
abbrev keep : List ℕ → List (List ℕ) → List (List ℕ)
keep bytes seen = seen ++ (bytes ∷ [])

-- The end of a message of two bytes, a keep-alive byte, and a message of one byte.
session_recv_all-feed_all_example :
    let r = feed_all keep (0 ∷ 0 ∷ 0 ∷ []) [] (2 ∷ 8 ∷ 9 ∷ 128 ∷ 0 ∷ 0 ∷ 0 ∷ 1 ∷ 5 ∷ []) in
    session_recv_all keep (buffered (0 ∷ 0 ∷ 0 ∷ [])) [] (2 ∷ 8 ∷ 9 ∷ 128 ∷ 0 ∷ 0 ∷ 0 ∷ 1 ∷ 5 ∷ [])
    ≡ (buffered r.0, r.1, [])
session_recv_all-feed_all_example =
    session_recv_all-feed_all keep (0 ∷ 0 ∷ 0 ∷ []) [] (2 ∷ 8 ∷ 9 ∷ 128 ∷ 0 ∷ 0 ∷ 0 ∷ 1 ∷ 5 ∷ [])
      (omega arith)

session_recv_all-append_example :
    let r = session_recv_all keep (buffered (0 ∷ [])) [] (0 ∷ 0 ∷ []) in
    session_recv_all keep (buffered (0 ∷ [])) [] ((0 ∷ 0 ∷ []) ++ (2 ∷ 8 ∷ 9 ∷ []))
    ≡ session_recv_all keep r.0 r.1 (2 ∷ 8 ∷ 9 ∷ [])
session_recv_all-append_example =
    session_recv_all-append keep (0 ∷ []) [] (0 ∷ 0 ∷ []) (2 ∷ 8 ∷ 9 ∷ []) (omega arith)

request-IsSendable : IsSendable (channel_create request)
unfolding wire_message wire_message_head wire16 wire32 wire_opaque wire_body wire_create_front
    wire_id_block wire_str wire_bool wire_login_info wire_enc_offer wire_offer_items
    wire_offer_block wire_items wire_encrypt_item
request-IsSendable = record { fits = request-IsMessage; writer = refl; short = omega arith }

abbrev requests : List Message
requests = channel_create request ∷ channel_create request ∷ []

abbrev pieces : List (List ℕ)
pieces = take 3 (sent requests) ∷ drop 3 (sent requests) ∷ []

recv_pieces-sent_example :
    recv_pieces (read_message garbage) session_buf_free [] pieces
    ≡ (session_buf_free, map (λ m. some (received m)) requests)
recv_pieces-sent_example =
    recv_pieces-sent garbage requests pieces (request-IsSendable, (request-IsSendable, tt))
      (ap (λ (t : List ℕ). take 3 (sent requests) ++ t) (append-nil (drop 3 (sent requests)))
        ∙ take-append-drop 3 (sent requests))

read_auth-compose_auth_rc2_40_example :
    read_auth_rc2_40 (compose_auth_rc2_40 five_bytes plain) ≡ take (strlen plain) plain
read_auth-compose_auth_rc2_40_example =
    read_auth-compose_auth_rc2_40 five_bytes plain refl plain-IsByte (omega arith)
