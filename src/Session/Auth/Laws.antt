-- ===== src/Session/Auth/Laws.antt =====
-- The other side can read the password.
use meanwhile.Base.{
  ℕ, ◌^◌, ◌<◌, ◌≡◌, refl, ap, arith, false, some, List, [], ◌++◌, All, length, take, length-append,
  append-nil, take_all, All-take,
}
use meanwhile.Buffer.Opaque.{Opaque, opaque_bytes, opaque_of, opaque_bytes-opaque_of, len-opaque_of}
use mathlib.Core.Path.{subst}
use meanwhile.Buffer.Put.{◌>>◌, put_buffer_new, put_buffer_finalize}
use meanwhile.Buffer.Put.Laws.{Writes->>}
use meanwhile.Buffer.Get.{GetBuffer, get_buffer_new}
use meanwhile.Buffer.Get.Laws.{cursor}
use meanwhile.Basic.{strlen, opaque_get, opaque_put}
use meanwhile.Basic.Wire.{wire_opaque}
use meanwhile.Basic.Writes.{opaque_holds-Writes, length-take-strlen}
use meanwhile.Basic.Reads.{opaque_get-bytes}
use meanwhile.Basic.Nested.Laws.{
  put_buffer_finalize-Writes, length-wire_opaque, get_buffer_new-cursor,
}
use meanwhile.Cipher.Block.Laws.{IsByte}
use meanwhile.Cipher.Key.{iv_init, key_expand}
use meanwhile.Cipher.Chain.{encrypt, decrypt}
use meanwhile.Cipher.Chain.Laws.{
  iv_init-IsChain, encrypt_expanded-len, decrypt_expanded-same, decrypt_expanded-encrypt_expanded,
}
use meanwhile.Session.Auth.{compose_auth_rc2_40}

-- What the server does with what it is sent: two opaques, and the second is decrypted by the first.
abbrev pub read_auth_rc2_40 : Opaque → List ℕ
read_auth_rc2_40 auth =
    let first = opaque_get (get_buffer_new (some auth)) in
    let second = opaque_get first.1 in
    opaque_bytes (decrypt (opaque_bytes first.0) iv_init second.0).1

-- Two opaques that are put one after the other are read one after the other.
two_opaques :
    (a b : Opaque)
    → a.len ≡ length (opaque_bytes a)
    → b.len ≡ length (opaque_bytes b)
    → a.len < 2 ^ 32
    → b.len < 2 ^ 32
    → let auth =
        put_buffer_finalize ((opaque_put (some a) >> opaque_put (some b)) put_buffer_new) in
      let first = opaque_get (get_buffer_new (some auth)) in
      (first.0 ≡ opaque_of (opaque_bytes a)) × ((opaque_get first.1).0 ≡ opaque_of (opaque_bytes b))
two_opaques a b ea eb sa sb =
    let xs = opaque_bytes a in
    let ys = opaque_bytes b in
    let auth = put_buffer_finalize ((opaque_put (some a) >> opaque_put (some b)) put_buffer_new) in
    let (size, holds) =
      put_buffer_finalize-Writes
        (Writes->> (opaque_holds-Writes a xs ea refl) (opaque_holds-Writes b ys eb refl))
        (omega (
          arith,
          length-append (wire_opaque xs) (wire_opaque ys),
          length-wire_opaque xs,
          length-wire_opaque ys,
        )) in
    let first = (opaque_get-bytes xs (omega arith)).run [] (wire_opaque ys) false in
    let second = (opaque_get-bytes ys (omega arith)).run (wire_opaque xs) [] false in
    rw (get_buffer_new-cursor auth (wire_opaque xs ++ wire_opaque ys) size holds, first)
      (
        refl,
        subst (λ (t : List ℕ). (opaque_get (cursor (wire_opaque xs) t false)).0 ≡ opaque_of ys)
            (append-nil (wire_opaque ys)) (ap (λ (r : Opaque × GetBuffer). r.0) second),
      )

-- What compose_auth_rc2_40 makes of a password, with five bytes as the key, for a password of
-- fewer than 2 ^ 30 characters: two opaques, and the second, decrypted with the first as the key,
-- is the password up to its terminating zero.
pub read_auth-compose_auth_rc2_40 :
    (key pass : List ℕ)
    → length key ≡ 5
    → All IsByte pass
    → strlen pass < 2 ^ 30
    → read_auth_rc2_40 (compose_auth_rc2_40 key pass) ≡ take (strlen pass) pass
unfolding compose_auth_rc2_40 encrypt decrypt
read_auth-compose_auth_rc2_40 key pass five bytes small =
    let z : Opaque = record { len = strlen pass; data_ = some pass } in
    let a : Opaque = record { len = 5; data_ = some key } in
    let b = (encrypt key iv_init z).1 in
    let shown : opaque_bytes a ≡ key = rw (← five) (take_all key) in
    let (long, few) = encrypt_expanded-len (key_expand key) iv_init z in
    let (got_key, got_pass) =
      two_opaques a b (omega (arith, ap (λ (t : List ℕ). length t) shown, five)) long (omega arith)
        (omega (arith, few)) in
    let back =
      decrypt_expanded-encrypt_expanded (key_expand key) iv_init z iv_init-IsChain (record {
        there = length-take-strlen pass;
        bytes = All-take IsByte (strlen pass) pass bytes;
        small = omega arith;
      }) in
    let sent = opaque_of (opaque_bytes b) in
    let same =
      decrypt_expanded-same (key_expand key) iv_init sent b
        (omega (arith, len-opaque_of (opaque_bytes b), long))
        (opaque_bytes-opaque_of (opaque_bytes b)) in
    rw (got_key, got_pass, opaque_bytes-opaque_of (opaque_bytes a), shown, same) back.2
