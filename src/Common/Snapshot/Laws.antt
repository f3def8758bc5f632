-- ===== src/Common/Snapshot/Laws.antt =====
-- Reading a snapshot, and passing over what stands behind its known fields.
use meanwhile.Base.{
  ℕ, ◌+◌, ◌≡◌, refl, arith, Bool, none, List, [], ◌∷◌, ◌++◌, length, length-append, append_assoc,
  append-nil,
}
use meanwhile.Buffer.Put.Laws.{bytes_if}
use meanwhile.Buffer.Get.{GetBuffer, ◌>>=◌, branch, pure, get_buffer_advance}
use meanwhile.Buffer.Get.Laws.{Reads, Reads->>=, Reads-end, cursor}
use meanwhile.Buffer.Get.Safe.{IsReader, Advances}
use meanwhile.Basic.Reads.{string_get-Reads, guint32_get-Reads, gboolean_get-Reads}
use meanwhile.Basic.Wire.{wire_str, wire32, IsWord32}
use meanwhile.Common.Rules.{safe_readers, branch-Reads, pure_eq-Reads}
use meanwhile.Common.Ids.Laws.{aware_id_block_get-Reads, aware_id_block_get-IsReader}
use meanwhile.Common.UserStatus.{wire_user_status, user_status_zero}
use meanwhile.Common.UserStatus.Laws.{user_status_get-Reads, user_status_get-IsReader}
use meanwhile.Common.Snapshot.{
  Snapshot, snapshot_zero, snapshot_get_online, snapshot_get_fields, skip_to, snapshot_finish,
  aware_snapshot_get, wire_snapshot, IsSnapshot,
}

abbrev offline : Snapshot → Snapshot
offline s = record s { alt_id = none; status = user_status_zero; name = none }

snapshot_rest :
    (s : Snapshot)
    → IsSnapshot s
    → Reads
        (branch s.online (snapshot_get_online (offline s)) (pure (offline s)))
        (bytes_if s.online (wire_str s.alt_id ++ (wire_user_status s.status ++ wire_str s.name)))
        s
unfolding snapshot_get_online
snapshot_rest s h =
    branch-Reads s.online
      (λ e. Reads->>= _ (string_get-Reads _ h.alt_id_ok) (
        Reads->>= _ (user_status_get-Reads _ _ h.status_ok)
          (Reads-end _ (string_get-Reads _ h.name_ok) (pure_eq-Reads (ground (arith, h.untimed))))))
      (λ e. pure_eq-Reads (ground (arith, h.brief e)))

pub snapshot_get_fields-Reads :
    (s : Snapshot) → IsSnapshot s → Reads (snapshot_get_fields snapshot_zero) (wire_snapshot s) s
unfolding snapshot_get_fields wire_snapshot
snapshot_get_fields-Reads s h = Reads->>= _ (aware_id_block_get-Reads _ _ h.id_ok) (
    Reads->>= _ (string_get-Reads _ h.group_ok)
      (Reads->>= _ (gboolean_get-Reads _ _) (snapshot_rest s h)))

skip_to-Advances : (n : ℕ) (b : GetBuffer) → Advances b (skip_to n b)
unfolding skip_to get_buffer_advance
skip_to-Advances n b = record {
  valid = λ v. record { whole = ground (arith, v.whole); place = ground (arith, v.place) };
  same = ground arith;
  forward = ground arith;
  stuck = λ e. ground arith;
}

snapshot_finish-IsReader : (n : ℕ) (s : Snapshot) → IsReader (snapshot_finish n s)
unfolding snapshot_finish
snapshot_finish-IsReader n s = record { run = skip_to-Advances n }

pub aware_snapshot_get-IsReader :
    (uninit : ℕ) (old : Snapshot) → IsReader (aware_snapshot_get uninit old)
unfolding aware_snapshot_get snapshot_get_fields snapshot_get_online
aware_snapshot_get-IsReader uninit old =
    search
      (
        safe_readers, aware_id_block_get-IsReader, user_status_get-IsReader,
        snapshot_finish-IsReader,
      )
      depth 12

length-wire32 : (n : ℕ) → length (wire32 n) ≡ 4
unfolding wire32
length-wire32 n = refl

empty_of_length : (xs : List ℕ) → length xs ≡ 0 → xs ≡ []
empty_of_length [] e = refl
empty_of_length (x ∷ xs) e = absurd (omega arith)

skip_to-cursor :
    (n : ℕ) (pre filler rest : List ℕ) (w : Bool)
    → n ≡ length pre + length filler
    → skip_to n (cursor pre (filler ++ rest) w) ≡ cursor (pre ++ filler) rest w
unfolding skip_to get_buffer_advance
skip_to-cursor n pre filler rest w e = ground (
  arith,
  length-append pre filler,
  length-append filler rest,
  length-append pre (filler ++ rest),
  append_assoc pre filler rest,
  empty_of_length filler,
  append-nil pre,
)

-- mwAwareSnapshot_get on the length field `n`, the wire format of a snapshot with a status time
-- of 0, and any filler, where `n` is the place of the filler's end counted from the head of the
-- buffer: it gives the snapshot and stops behind the filler.
pub aware_snapshot_get-cursor :
    (uninit n : ℕ) (s : Snapshot) (pre filler rest : List ℕ) (w : Bool)
    → IsSnapshot s
    → IsWord32 n
    → n ≡ length pre + 4 + length (wire_snapshot s) + length filler
    → aware_snapshot_get uninit snapshot_zero
        (cursor pre (wire32 n ++ (wire_snapshot s ++ (filler ++ rest))) w)
      ≡ (s, cursor (((pre ++ wire32 n) ++ wire_snapshot s) ++ filler) rest w)
unfolding aware_snapshot_get ◌>>=◌ snapshot_finish
aware_snapshot_get-cursor uninit n s pre filler rest w h small e = rw (
  (guint32_get-Reads uninit n small).run pre (wire_snapshot s ++ (filler ++ rest)) w,
  (snapshot_get_fields-Reads s h).run (pre ++ wire32 n) (filler ++ rest) w,
  skip_to-cursor n ((pre ++ wire32 n) ++ wire_snapshot s) filler rest w (
      omega (
        arith,
        e,
        length-append pre (wire32 n),
        length-append (pre ++ wire32 n) (wire_snapshot s),
        length-wire32 n,
      )),
)
