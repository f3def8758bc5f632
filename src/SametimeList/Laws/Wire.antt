-- ===== src/SametimeList/Laws/Wire.antt =====
-- A list of contacts on a buffer.
use mathlib.Core.Path.{subst}
use meanwhile.Base.{
  ℕ, ◌%◌, ◌<◌, ◌≤◌, ◌^◌, ◌≡◌, refl, ap, ◌∙◌, arith, Bool, false, some, List, [], length, take_all,
}
use meanwhile.Buffer.Put.{put_buffer_new, put_buffer_finalize}
use meanwhile.Buffer.Put.Laws.{max_wire, Writes, Writes->>, put_buffer_write-Writes}
use meanwhile.Buffer.Get.{get_buffer_new}
use meanwhile.Buffer.Get.Laws.{Reads, Reads-end, Reads-all, pure-Reads}
use meanwhile.Basic.{strlen, string_get}
use meanwhile.Basic.Wire.{text, wire_str, wire16, str_of}
use meanwhile.Basic.Writes.{guint16_put-Writes}
use meanwhile.Basic.Reads.{string_get-text}
use meanwhile.Basic.Nested.Laws.{put_buffer_finalize-Writes, get_buffer_new-cursor}
use meanwhile.SametimeList.{SametimeList, sametime_list_new}
use meanwhile.SametimeList.Store.{list_store, version_line, sametime_list_put}
use meanwhile.SametimeList.Load.{loaded, list_of, sametime_list_get}
use meanwhile.SametimeList.Laws.{stored_list, IsStorable}
use meanwhile.SametimeList.Laws.Rounds.{load-store}
use meanwhile.SametimeList.Laws.Groups.{IsSpaceTest}

text-whole : (cs : List ℕ) → strlen cs ≡ length cs → text (some cs) ≡ cs
text-whole cs e = rw e (take_all cs)

put-Writes :
    (l : SametimeList)
    → strlen (list_store l) ≡ length (list_store l)
    → length (list_store l) < 2 ^ 16
    → Writes (sametime_list_put l) (wire_str (some (list_store l)))
unfolding sametime_list_put wire_str
put-Writes l z h =
    let cs = list_store l in
    let short : length cs % 2 ^ 16 ≡ length cs = omega arith in
    rw (text-whole cs z, short, take_all cs)
      (Writes->> (guint16_put-Writes (length cs)) (put_buffer_write-Writes cs))

wire-small :
    (l : SametimeList)
    → strlen (list_store l) ≡ length (list_store l)
    → length (list_store l) < 2 ^ 16
    → length (wire_str (some (list_store l))) ≤ max_wire
unfolding wire_str wire16
wire-small l z h = rw (text-whole (list_store l) z) (omega arith)

store-some : (l : SametimeList) → str_of (list_store l) ≡ some (list_store l)
unfolding list_store version_line
store-some l = refl

module _ (is_space : ℕ → Bool) (test : IsSpaceTest is_space) where
  get-Reads :
      (l : SametimeList)
      → IsStorable l
      → strlen (list_store l) ≡ length (list_store l)
      → length (list_store l) < 2 ^ 16
      → Reads
          (sametime_list_get is_space sametime_list_new)
          (wire_str (some (list_store l)))
          (loaded (stored_list l))
  unfolding sametime_list_get
  get-Reads l s z h =
      let cs = list_store l in
      let whole = text-whole cs z in
      let read : Reads string_get (wire_str (some cs)) (some cs) =
        subst (Reads string_get (wire_str (some cs))) (ap str_of whole ∙ store-some l)
          (string_get-text (some cs) (rw whole h)) in
      let listed : list_of is_space sametime_list_new (some cs) ≡ loaded (stored_list l) =
        rw (z, take_all cs) (load-store is_space test l s) in
      Reads-end _ read (subst (Reads _ []) listed (pure-Reads _))

  -- For a list that is storable as `load-store` has it (IsStorable), with such a g_ascii_isspace,
  -- and whose text has no zero and fewer than 2 ^ 16 characters: when mwSametimeList_put writes
  -- it to a new buffer, and mwSametimeList_get reads the opaque that this is turned into, a new
  -- list becomes `stored_list` of the list, and the buffer has no error.
  pub get-put :
      (l : SametimeList)
      → IsStorable l
      → strlen (list_store l) ≡ length (list_store l)
      → length (list_store l) < 2 ^ 16
      → let r =
          sametime_list_get is_space sametime_list_new
            (get_buffer_new (some (put_buffer_finalize (sametime_list_put l put_buffer_new)))) in
        (r.0 ≡ loaded (stored_list l)) × (r.1.error ≡ false)
  get-put l s z h =
      let bytes = wire_str (some (list_store l)) in
      let o = put_buffer_finalize (sametime_list_put l put_buffer_new) in
      let (size, holds) = put_buffer_finalize-Writes (put-Writes l z h) (wire-small l z h) in
      let read =
        ap (sametime_list_get is_space sametime_list_new) (get_buffer_new-cursor o bytes size holds)
        ∙ Reads-all false (get-Reads l s z h) in
      rw read (refl, refl)
