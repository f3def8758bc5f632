-- ===== src/Basic/Nested.antt =====
-- A buffer that is written, finalized, and put into another as an opaque, as enc_offer_put,
-- enc_accept_put and ANNOUNCE_put of src/message.c do.
pub mod Laws
use meanwhile.Base.{some}
use meanwhile.Buffer.Put.{Put, put_buffer_new, put_buffer_finalize}
use meanwhile.Basic.{opaque_put}

unfoldable pub nested : Put → Put
nested f = opaque_put (some (put_buffer_finalize (f put_buffer_new)))
