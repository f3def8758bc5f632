-- ===== src/Message/Encrypt.antt =====
-- The encryption blocks of the channel messages: struct mwEncryptOffer and struct mwEncryptAccept
-- (src/message.c, src/mw_message.h). A block without items is written without its length; the
-- zeros that the channel messages end with stand for it.
pub mod Laws
use meanwhile.Base.{
  ℕ, zero, suc, ◌%◌, ◌^◌, ◌<◌, ◌≡◌, Bool, true, false, not, Option, none, some, List, [], ◌∷◌, ◌++◌,
  length, leb, ltb, All,
}
use meanwhile.Buffer.Put.{Put, ◌>>◌, skip, put_if}
use meanwhile.Buffer.Get.{Get, ◌>>=◌, pure, unless_error, branch}
use meanwhile.Basic.{guint16_put, guint16_get, guint32_put, guint32_get, gboolean_put, gboolean_get}
use meanwhile.Basic.Nested.{nested}
use meanwhile.Basic.Wire.{wire16, wire32, wire_bool, wire_opaque, IsWord16, IsWord32}
use meanwhile.Common.EncryptItem.{
  EncryptItem, encrypt_item_zero, encrypt_item_put, encrypt_item_get, wire_encrypt_item,
  IsEncryptItem,
}

pub record EncryptOffer : Type 0 where
  pub mode : ℕ
  pub items : List EncryptItem
  pub extra : ℕ
  pub flag : Bool

abbrev pub encrypt_offer_zero : EncryptOffer
encrypt_offer_zero = record { mode = 0; items = []; extra = 0; flag = false }

abbrev pub is_empty : List EncryptItem → Bool
is_empty [] = true
is_empty (e ∷ es) = false

-- for(list = enc->items; list; list = list->next) mwEncryptItem_put(p, list->data);
unfoldable pub items_put : List EncryptItem → Put
items_put [] = skip
items_put (e ∷ es) = do encrypt_item_put e; items_put es

unfoldable pub enc_offer_put : EncryptOffer → Put
enc_offer_put enc = do
  guint16_put enc.mode
  put_if (not (is_empty enc.items)) (
      nested do
        guint32_put (length enc.items)
        items_put enc.items
        guint16_put enc.extra
        gboolean_put enc.flag)

-- while(count-- && (! mwGetBuffer_error(b))), which appends to the list.
unfoldable pub items_get : ℕ → List EncryptItem → Get (List EncryptItem)
items_get zero items = pure items
items_get (suc count) items =
    unless_error items
      do ei ← encrypt_item_get encrypt_item_zero; items_get count (items ++ (ei ∷ []))

-- The part under if(skip >= 7); `uninit` is what the variable `count` holds before it is read.
unfoldable pub enc_offer_get_items : ℕ → EncryptOffer → Get EncryptOffer
enc_offer_get_items uninit enc = do
  count ← guint32_get uninit
  items ← items_get count enc.items
  extra ← guint16_get enc.extra
  flag ← gboolean_get enc.flag
  pure (record enc { items = items; extra = extra; flag = flag })

-- `uninit` is what the variables `skip` and `count` hold before they are read.
unfoldable pub enc_offer_get : ℕ × ℕ → EncryptOffer → Get EncryptOffer
enc_offer_get (uninit, uninit') enc = unless_error enc do
  mode ← guint16_get enc.mode
  skip' ← guint32_get uninit
  let enc' : EncryptOffer = record enc { mode = mode }
  branch (leb 7 skip') (enc_offer_get_items uninit' enc') (pure enc')

-- `item` is NULL or points to an item.
pub record EncryptAccept : Type 0 where
  pub mode : ℕ
  pub item : Option EncryptItem
  pub extra : ℕ
  pub flag : Bool

abbrev pub encrypt_accept_zero : EncryptAccept
encrypt_accept_zero = record { mode = 0; item = none; extra = 0; flag = false }

-- The part under if(enc->item).
unfoldable pub accept_item_put : Option EncryptItem → ℕ → Bool → Put
accept_item_put none extra flag = skip
accept_item_put (some item) extra flag =
    nested do encrypt_item_put item; guint16_put extra; gboolean_put flag

unfoldable pub enc_accept_put : EncryptAccept → Put
enc_accept_put enc = do guint16_put enc.mode; accept_item_put enc.item enc.extra enc.flag

-- if(skip >= 6)
unfoldable pub accept_item_get : EncryptAccept → Get EncryptAccept
accept_item_get enc = do
  item ← encrypt_item_get encrypt_item_zero
  pure (record enc { item = some item })

-- if(skip >= 9)
unfoldable pub accept_extra_get : EncryptAccept → Get EncryptAccept
accept_extra_get enc = do
  extra ← guint16_get enc.extra
  flag ← gboolean_get enc.flag
  pure (record enc { extra = extra; flag = flag })

-- `uninit` is what the variable `skip` holds before it is read.
unfoldable pub enc_accept_get : ℕ → EncryptAccept → Get EncryptAccept
enc_accept_get uninit enc = unless_error enc do
  mode ← guint16_get enc.mode
  skip' ← guint32_get uninit
  let enc' : EncryptAccept = record enc { mode = mode }
  enc2 ← branch (leb 6 skip') (accept_item_get enc') (pure enc')
  branch (leb 9 skip') (accept_extra_get enc2) (pure enc2)

unfoldable pub wire_items : List EncryptItem → List ℕ
wire_items [] = []
wire_items (e ∷ es) = wire_encrypt_item e ++ wire_items es

unfoldable pub wire_offer_block : EncryptOffer → List ℕ
wire_offer_block o =
    wire32 (length o.items) ++ (wire_items o.items ++ (wire16 o.extra ++ wire_bool o.flag))

-- What enc_offer_put writes behind the mode.
unfoldable pub sent_items : EncryptOffer → List EncryptItem → List ℕ
sent_items o [] = []
sent_items o (e ∷ es) = wire_opaque (wire_offer_block o)

-- What follows the mode for a reader: the block, or a length of 0.
unfoldable pub wire_offer_items : EncryptOffer → List EncryptItem → List ℕ
wire_offer_items o [] = wire32 0
wire_offer_items o (e ∷ es) = wire_opaque (wire_offer_block o)

unfoldable pub wire_enc_offer : EncryptOffer → List ℕ
wire_enc_offer o = wire16 o.mode ++ wire_offer_items o o.items

unfoldable pub sent_item : Option EncryptItem → ℕ → Bool → List ℕ
sent_item none extra flag = []
sent_item (some e) extra flag =
    wire_opaque (wire_encrypt_item e ++ (wire16 extra ++ wire_bool flag))

unfoldable pub wire_accept_item : Option EncryptItem → ℕ → Bool → List ℕ
wire_accept_item none extra flag = wire32 0
wire_accept_item (some e) extra flag =
    wire_opaque (wire_encrypt_item e ++ (wire16 extra ++ wire_bool flag))

unfoldable pub wire_enc_accept : EncryptAccept → List ℕ
wire_enc_accept a = wire16 a.mode ++ wire_accept_item a.item a.extra a.flag

-- Without items the rest is not sent.
pub record IsEncryptOffer (o : EncryptOffer) : Type 0 where
  pub mode_ok : IsWord16 o.mode
  pub items_ok : All IsEncryptItem o.items
  pub count_ok : IsWord32 (length o.items)
  pub extra_ok : IsWord16 o.extra
  pub short : length (wire_offer_block o) < 2 ^ 32
  pub brief : o.items ≡ [] → (o.extra ≡ 0) × (o.flag ≡ false)

-- The bytes that both channel messages end with.
abbrev pub channel_end : List ℕ
channel_end = wire32 0 ++ (wire32 0 ++ wire16 7)

-- What a reader leaves of them.
abbrev pub offer_left : List EncryptItem → List ℕ
offer_left [] = wire32 0 ++ wire16 7
offer_left (e ∷ es) = channel_end

abbrev pub accept_left : Option EncryptItem → List ℕ
accept_left none = wire32 0 ++ wire16 7
accept_left (some e) = channel_end

abbrev pub IsAcceptItem : Option EncryptItem → Type 0
IsAcceptItem none = Unit {0}
IsAcceptItem (some e) = IsEncryptItem e

pub record IsEncryptAccept (a : EncryptAccept) : Type 0 where
  pub mode_ok : IsWord16 a.mode
  pub item_ok : IsAcceptItem a.item
  pub extra_ok : IsWord16 a.extra
  pub short : length (wire_accept_item a.item a.extra a.flag) < 2 ^ 32
  pub brief : a.item ≡ none → (a.extra ≡ 0) × (a.flag ≡ false)
