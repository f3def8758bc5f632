-- ===== src/Session/Auth.antt =====
-- compose_auth_rc2_40 and compose_auth_rc2_128 of src/session.c: how a password is sent.
pub mod Laws
use meanwhile.Base.{ℕ, ◌-◌, some, List, drop, length}
use meanwhile.Buffer.Opaque.{Opaque, opaque_bytes}
use meanwhile.Buffer.Put.{◌>>◌, Put, put_buffer_new, put_buffer_finalize}
use meanwhile.Basic.{Str, str_len, guint16_put, guint32_put, string_put, opaque_put}
use meanwhile.Cipher.Key.{iv_init}
use meanwhile.Cipher.Chain.{encrypt}
use meanwhile.Cipher.Rc2128.{
  Mpi, dh_rand_keypair, dh_import_key, dh_export_key, dh_calculate_shared, last_16,
}

-- `key` are the five bytes of mwKeyRandom, `pass` is not NULL.
unfoldable pub compose_auth_rc2_40 : List ℕ → List ℕ → Opaque
compose_auth_rc2_40 key pass =
    let a : Opaque = record { len = 5; data_ = some key } in
    let z : Opaque = record { len = str_len (some pass); data_ = some pass } in
    let b = (encrypt key iv_init z).1 in
    put_buffer_finalize ((do opaque_put (some a); opaque_put (some b)) put_buffer_new)

module _ (mpi : Mpi) where
  -- The password and the magic number in an opaque.
  unfoldable pub auth_plain : Str → ℕ → Opaque
  auth_plain pass magic =
      put_buffer_finalize ((do guint32_put magic; string_put pass) put_buffer_new)

  -- The last 16 bytes of the shared key; `random` are the bytes for the private key, and
  -- `front` those that lie in memory in front of the shared one.
  unfoldable pub auth_key : List ℕ → List ℕ → Opaque → List ℕ
  auth_key front random rkey =
      let shared =
        dh_calculate_shared mpi (dh_import_key mpi rkey) (dh_rand_keypair mpi random).0 in
      let b = dh_export_key mpi shared in last_16 front (opaque_bytes b)

  unfoldable pub compose_auth_rc2_128 : List ℕ → List ℕ → Str → ℕ → Opaque → Opaque
  compose_auth_rc2_128 front random pass magic rkey =
      let c = (encrypt (auth_key front random rkey) iv_init (auth_plain pass magic)).1 in
      put_buffer_finalize (
        (do
          guint16_put 0x0001
          opaque_put (some (dh_export_key mpi (dh_rand_keypair mpi random).1))
          opaque_put (some c))
          put_buffer_new)
