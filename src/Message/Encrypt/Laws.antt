-- ===== src/Message/Encrypt/Laws.antt =====
-- Writing and reading the encryption blocks.
use meanwhile.Base.{
  ℕ, zero, suc, ◌%◌, ◌^◌, ◌≤◌, ◌<◌, ◌≡◌, refl, sym, arith, Bool, true, false, not, Option, none,
  some, List, [], ◌∷◌, ◌++◌, append_assoc, append-nil, length, length-append, leb, All,
}
use mathlib.Core.Path.{subst}
use meanwhile.Buffer.Opaque.{opaque_bytes}
use meanwhile.Buffer.Put.{Put, ◌>>◌, put_if}
use meanwhile.Buffer.Put.Laws.{Writes, Writes->>, skip-Writes, put_if-Writes}
use meanwhile.Buffer.Get.{◌>>=◌, branch, pure}
use meanwhile.Buffer.Get.Laws.{
  Reads, Reads->>=, Reads-end, pure-Reads, unless_error-Reads, branch-true-Reads,
  branch-false-Reads,
}
use meanwhile.Buffer.Get.Safe.{IsReader, IsReader->>=, pure-IsReader, unless_error-IsReader}
use meanwhile.Basic.Nested.{nested}
use meanwhile.Basic.{guint16_put, guint32_put, gboolean_put, guint32_get}
use meanwhile.Basic.Nested.Laws.{nested-Writes}
use meanwhile.Basic.Writes.{guint16_put-Writes, guint32_put-Writes, gboolean_put-Writes}
use meanwhile.Basic.Reads.{guint16_get-Reads, guint32_get-Reads, gboolean_get-Reads}
use meanwhile.Basic.Wire.{wire16, wire32, wire_bool, wire_opaque}
use meanwhile.Common.Rules.{safe_readers, pure_eq-Reads}
use meanwhile.Common.EncryptItem.{
  EncryptItem, encrypt_item_zero, encrypt_item_put, wire_encrypt_item, IsEncryptItem,
}
use meanwhile.Common.EncryptItem.Laws.{
  encrypt_item_put-Writes, encrypt_item_get-IsReader, encrypt_item_get-Reads,
}
use meanwhile.Message.Encrypt.{
  EncryptOffer, encrypt_offer_zero, is_empty, items_put, enc_offer_put, items_get,
  enc_offer_get_items, enc_offer_get, EncryptAccept, encrypt_accept_zero, accept_item_put,
  enc_accept_put, accept_item_get, accept_extra_get, enc_accept_get, wire_items, wire_offer_block,
  wire_offer_items, sent_items, sent_item, channel_end, offer_left, accept_left, wire_enc_offer,
  wire_accept_item, wire_enc_accept, IsEncryptOffer, IsAcceptItem, IsEncryptAccept,
}

items_put-Writes :
    (es : List EncryptItem) → All IsEncryptItem es → Writes (items_put es) (wire_items es)
unfolding items_put wire_items
items_put-Writes [] h = skip-Writes
items_put-Writes (e ∷ es) h = Writes->> (encrypt_item_put-Writes e h.0) (items_put-Writes es h.1)

offer_block-Writes :
    (o : EncryptOffer)
    → IsEncryptOffer o
    → Writes
        (guint32_put (length o.items)
          >> (items_put o.items >> (guint16_put o.extra >> gboolean_put o.flag)))
        (wire_offer_block o)
unfolding wire_offer_block
offer_block-Writes o h = Writes->> (guint32_put-Writes (length o.items)) (
    Writes->> (items_put-Writes o.items h.items_ok)
      (Writes->> (guint16_put-Writes o.extra) (gboolean_put-Writes o.flag)))

offer_items-Writes :
    {f : Put} (o : EncryptOffer) (items : List EncryptItem)
    → Writes f (wire_offer_block o)
    → Writes (put_if (not (is_empty items)) (nested f)) (sent_items o items)
unfolding sent_items
offer_items-Writes o [] wf = put_if-Writes false (nested-Writes wf)
offer_items-Writes o (e ∷ es) wf = put_if-Writes true (nested-Writes wf)

pub enc_offer_put-Writes :
    (o : EncryptOffer)
    → IsEncryptOffer o
    → Writes (enc_offer_put o) (wire16 o.mode ++ sent_items o o.items)
unfolding enc_offer_put
enc_offer_put-Writes o h =
    Writes->> (guint16_put-Writes o.mode) (offer_items-Writes o o.items (offer_block-Writes o h))

-- The zeros at the end stand for the length of an empty block.
pub sent_items-end :
    (o : EncryptOffer) (items : List EncryptItem)
    → sent_items o items ++ channel_end ≡ wire_offer_items o items ++ offer_left items
unfolding sent_items wire_offer_items
sent_items-end o [] = refl
sent_items-end o (e ∷ es) = refl

items_get-IsReader : (n : ℕ) (acc : List EncryptItem) → IsReader (items_get n acc)
unfolding items_get
items_get-IsReader zero acc = pure-IsReader acc
items_get-IsReader (suc n) acc = unless_error-IsReader acc (
    IsReader->>= _ (encrypt_item_get-IsReader encrypt_item_zero)
      (λ e. items_get-IsReader n (acc ++ (e ∷ []))))

pub enc_offer_get-IsReader : (u : ℕ × ℕ) (old : EncryptOffer) → IsReader (enc_offer_get u old)
unfolding enc_offer_get enc_offer_get_items
enc_offer_get-IsReader (u, u') old = search (safe_readers, items_get-IsReader) depth 12

items_get-Reads :
    (es acc : List EncryptItem)
    → All IsEncryptItem es
    → Reads (items_get (length es) acc) (wire_items es) (acc ++ es)
unfolding items_get wire_items
items_get-Reads [] acc h = pure_eq-Reads (sym (append-nil acc))
items_get-Reads (e ∷ es) acc h = unless_error-Reads acc (
    Reads->>= _ (encrypt_item_get-Reads encrypt_item_zero e h.0) (
      subst (Reads _ (wire_items es)) (append_assoc acc (e ∷ []) es)
        (items_get-Reads es (acc ++ (e ∷ [])) h.1)))

block_long : (o : EncryptOffer) → leb 7 (length (wire_offer_block o)) ≡ true
unfolding wire_offer_block wire32 wire16 wire_bool
block_long o =
    let items = wire_items o.items in
    let end : List ℕ = wire16 o.extra ++ wire_bool o.flag in ground (arith, length-append items end)

offer_items-Reads :
    (u : ℕ) (o : EncryptOffer)
    → IsEncryptOffer o
    → Reads
        (enc_offer_get_items u (record { mode = o.mode; items = []; extra = 0; flag = false }))
        (wire_offer_block o)
        o
unfolding enc_offer_get_items wire_offer_block
offer_items-Reads u o h = Reads->>= _ (guint32_get-Reads u (length o.items) h.count_ok) (
    Reads->>= _ (items_get-Reads o.items [] h.items_ok) (
      Reads->>= _ (guint16_get-Reads _ _ h.extra_ok)
        (Reads-end _ (gboolean_get-Reads _ _) (pure-Reads _))))

offer_rest :
    (u u' m x : ℕ) (f : Bool) (items : List EncryptItem)
    → let o : EncryptOffer = record { mode = m; items = items; extra = x; flag = f } in
      let o' : EncryptOffer = record { mode = m; items = []; extra = 0; flag = false } in
      IsEncryptOffer o
      → Reads
          (guint32_get u >>= λ skip'. branch (leb 7 skip') (enc_offer_get_items u' o') (pure o'))
          (wire_offer_items o items)
          o
unfolding wire_offer_items wire_opaque
offer_rest u u' m x f [] h =
    Reads-end _ (guint32_get-Reads u 0 (omega arith))
      (branch-false-Reads _ refl (pure_eq-Reads (ground (arith, h.brief refl))))
offer_rest u u' m x f (e ∷ es) h =
    let o : EncryptOffer = record { mode = m; items = e ∷ es; extra = x; flag = f } in
    let whole : length (wire_offer_block o) % 2 ^ 32 ≡ length (wire_offer_block o) =
      omega (arith, h.short) in
    rw whole (
      Reads->>= _ (guint32_get-Reads u (length (wire_offer_block o)) h.short)
        (branch-true-Reads _ (block_long o) (offer_items-Reads u' o h)))

-- enc_offer_get into a zeroed struct takes exactly the wire format of an offer that fits the wire
-- (without items, an empty block) and gives the offer, whatever its uninitialised variables hold.
pub enc_offer_get-Reads :
    (u : ℕ × ℕ) (o : EncryptOffer)
    → IsEncryptOffer o
    → Reads (enc_offer_get u encrypt_offer_zero) (wire_enc_offer o) o
unfolding enc_offer_get wire_enc_offer
enc_offer_get-Reads (u, u') o h = unless_error-Reads _ (
    Reads->>= _ (guint16_get-Reads _ _ h.mode_ok) (offer_rest u u' o.mode o.extra o.flag o.items h))

pub enc_accept_get-IsReader : (u : ℕ) (old : EncryptAccept) → IsReader (enc_accept_get u old)
unfolding enc_accept_get accept_item_get accept_extra_get
enc_accept_get-IsReader u old = search (safe_readers, encrypt_item_get-IsReader) depth 12

accept_block-Writes :
    (e : EncryptItem) (x : ℕ) (f : Bool)
    → IsEncryptItem e
    → Writes
        (encrypt_item_put e >> (guint16_put x >> gboolean_put f))
        (wire_encrypt_item e ++ (wire16 x ++ wire_bool f))
accept_block-Writes e x f h =
    Writes->> (encrypt_item_put-Writes e h)
      (Writes->> (guint16_put-Writes x) (gboolean_put-Writes f))

accept_item_put-Writes :
    (i : Option EncryptItem) (x : ℕ) (f : Bool)
    → IsAcceptItem i
    → Writes (accept_item_put i x f) (sent_item i x f)
unfolding accept_item_put sent_item
accept_item_put-Writes none x f h = skip-Writes
accept_item_put-Writes (some e) x f h = nested-Writes (accept_block-Writes e x f h)

pub enc_accept_put-Writes :
    (a : EncryptAccept)
    → IsEncryptAccept a
    → Writes (enc_accept_put a) (wire16 a.mode ++ sent_item a.item a.extra a.flag)
unfolding enc_accept_put
enc_accept_put-Writes a h =
    Writes->> (guint16_put-Writes a.mode) (accept_item_put-Writes a.item a.extra a.flag h.item_ok)

pub sent_item-end :
    (i : Option EncryptItem) (x : ℕ) (f : Bool)
    → sent_item i x f ++ channel_end ≡ wire_accept_item i x f ++ accept_left i
unfolding sent_item wire_accept_item
sent_item-end none x f = refl
sent_item-end (some e) x f = refl

accept_long :
    (e : EncryptItem) (x : ℕ) (f : Bool)
    → 9 ≤ length (wire_encrypt_item e ++ (wire16 x ++ wire_bool f))
unfolding wire_encrypt_item wire_opaque wire32 wire16 wire_bool
accept_long e x f = omega (arith, length-append (opaque_bytes e.info) (wire16 x ++ wire_bool f))

long_tests : (n : ℕ) → 9 ≤ n → (leb 6 n ≡ true) × (leb 9 n ≡ true)
long_tests n h = ground arith

accept_rest :
    (u m x : ℕ) (f : Bool) (i : Option EncryptItem)
    → let a : EncryptAccept = record { mode = m; item = i; extra = x; flag = f } in
      let a' : EncryptAccept = record { mode = m; item = none; extra = 0; flag = false } in
      IsEncryptAccept a
      → Reads
          (guint32_get u >>= λ skip'. branch (leb 6 skip') (accept_item_get a') (pure a') >>= λ a2.
            branch (leb 9 skip') (accept_extra_get a2) (pure a2))
          (wire_accept_item i x f)
          a
unfolding wire_accept_item accept_item_get accept_extra_get wire_opaque
accept_rest u m x f none h = Reads-end _ (guint32_get-Reads u 0 (omega arith)) (
    Reads-end _ (branch-false-Reads _ refl (pure-Reads _))
      (branch-false-Reads _ refl (pure_eq-Reads (ground (arith, h.brief refl)))))
accept_rest u m x f (some e) h =
    let block = wire_encrypt_item e ++ (wire16 x ++ wire_bool f) in
    let small : length block < 2 ^ 32 =
      omega (arith, h.short, length-append (wire32 (length block % 2 ^ 32)) block) in
    let whole : length block % 2 ^ 32 ≡ length block = omega arith in
    let (six, nine) = long_tests (length block) (accept_long e x f) in
    rw whole (
      Reads->>= _ (guint32_get-Reads u (length block) small) (
        Reads->>= _
          (branch-true-Reads _ six
            (Reads-end _ (encrypt_item_get-Reads _ e h.item_ok) (pure-Reads _)))
          (branch-true-Reads _ nine (
            Reads->>= _ (guint16_get-Reads _ _ h.extra_ok)
              (Reads-end _ (gboolean_get-Reads _ _) (pure-Reads _))))))

-- enc_accept_get into a zeroed struct takes exactly the wire format of an answer that fits the
-- wire (without an item, an empty block) and gives the answer, whatever its uninitialised
-- variable holds.
pub enc_accept_get-Reads :
    (u : ℕ) (a : EncryptAccept)
    → IsEncryptAccept a
    → Reads (enc_accept_get u encrypt_accept_zero) (wire_enc_accept a) a
unfolding enc_accept_get wire_enc_accept
enc_accept_get-Reads u a h =
    unless_error-Reads _
      (Reads->>= _ (guint16_get-Reads _ _ h.mode_ok) (accept_rest u a.mode a.extra a.flag a.item h))
