-- ===== src/Lib.antt =====
-- Meanwhile, a library for the Sametime protocol: its wire layer, its ciphers, its session,
-- channels, contact lists and the resolve service.
--
-- The library talks to a Sametime server in messages. A client's session frames them, and every
-- message, every service and every stored list is written and read with the same layer: byte
-- buffers (src/common.c), the basic types on them (integers, flags, strings, opaques), the
-- composite types that messages share, and the messages themselves (src/message.c). On top of
-- this layer a session (src/session.c) receives bytes in pieces of any size, puts the messages in
-- them together, and changes its state by them; it logs in, with a password that is encrypted by
-- src/cipher.c, and starts and stops its services (src/service.c). The ciphers also encrypt what
-- is sent on a channel (src/channel.c), over which a service talks to its other side. A list of
-- contacts (src/st_list.c) is kept on the server as a text.
--
-- The files:
-- - Base: Boolean tests, the conditional and `gsize` arithmetic on native numbers, and lists
--   measured by them.
-- - Buffer: struct mwOpaque of src/mw_common.h (Opaque), struct mwPutBuffer (Put) and struct
--   mwGetBuffer (Get) of src/common.c. A pointer into a block is an offset; the heap block of a put
--   buffer is a list of cells, of which those not yet written are `none`.
-- - Basic: guint16, guint32, gboolean, mwString and mwOpaque of src/common.c. Wire states their
--   format on the wire, Writes and Reads that the code keeps to it, Safe that the readers stay in
--   their buffer, Nested is the use of a put buffer inside of another, Limits what the code does
--   outside of the format.
-- - Common: the composite types of src/common.c, a file each, with put, get, clear and clone; Clones is
--   what the clones keep.
-- - Message: src/message.c. Head is struct mwMessage, Handshake, Login, Status, Encrypt, Channel and
--   Announce are the message types, Dispatch is mwMessage_new, mwMessage_get and mwMessage_put.
-- - Cipher: src/cipher.c. Key is mwKeyExpand, Block the encryption of eight bytes, Chain that of data,
--   Rc240 and Rc2128 are the two ciphers. Chain/Stream has messages that follow each other.
--   Instance has the function pointers of struct mwCipher and what the two ciphers set there.
-- - Channel: the channels of src/channel.c. Channel itself has their queues, Life how they are created
--   and destroyed and what a service does that is given a message, Life/Accept how they are accepted,
--   Life/Receive what they do with the messages that arrive. Laws is about a service that answers,
--   Laws/Order about the order of what is sent, Life/Protocol about the messages a channel writes and
--   its state: Keeps has the parts, Service what a service does that is given a message, Steps all
--   calls, Arrives the messages, Reach what can be reached.
--   Set is the set of channels with their ids.
-- - SametimeList: the lists of contacts of src/st_list.c. Scan is what it uses of sscanf and printf,
--   Store writes a list as a text, Load reads it; Laws is about the two together.
-- - Resolve: the resolve service, src/srvc_resolve.c, on a channel. Resolve itself has its messages, Run
--   its state; a handler with its data is a value, and its calls are recorded.
-- - Service: the life cycle of src/service.c.
-- - Session: src/session.c. Recv is mwSession_recv with its buffer; Recv/Stream is the machine that
--   takes one byte after the other, which it is compared to. Send is what mwSession_send writes,
--   Auth the two functions compose_auth_*. State is the session's state machine with mwSession_start,
--   mwSession_stop, mwSession_send and mwSession_forceLogin; State/Handle has the handlers of the
--   messages, and mwSession_recv on the whole session, State/Calls what else its users can ask for.
--   State/Steps is the diagram of the states, State/Reach what can be reached.
-- - Witnesses: theorems at concrete inputs.
--
-- The correspondence: X_put, X_get, X_clear and X_clone of a struct mwX are x_put, x_get, x_clear
-- and x_clone without the prefix mw; CHANNEL_CREATE_put is channel_create_put and so on. A struct
-- is a record with the fields of the source; `type`, `data`, `skip` and `end` have an underscore.
-- A function that fills a struct takes the old struct and returns the new one with the buffer. A
-- local variable that the source does not initialise is an argument, so the theorems hold for
-- whatever it contains. NULL is `none` of an option; a string is the bytes before its terminating
-- zero; the GLists of the messages are lists. An id's string hash, g_str_hash, is an argument.
-- The assertions of the functions on NULL arguments, which no modelled caller passes, are left out
-- where the argument is not an option.
--
-- Parameters: the large integers of mpi.h are a record of functions (Mpi), of which Rc2128/Laws
-- supposes that a number that is written is read again, and that powers of powers can be taken in
-- either order; random bytes are arguments. The reception of bytes (Recv) takes what is done with
-- a whole message as an argument; State/Handle has what the session does. The state machine takes
-- a record (World) of whether a write fails, which may depend on everything that happened before,
-- of the random bytes, of what would be read at NULL for a password that is not set, and of the
-- memory in front of a secret, whose last 16 bytes are taken without a look at its length. The
-- callbacks of a session's handler are recorded in order, and are supposed not to call the
-- session in turn. A service's start and stop handlers are functions of its state, which give the
-- state they leave and the messages they write. A channel takes a record (Context) of what it has
-- of its session: the functions of the ciphers (CipherOps), a new instance of each, the services,
-- the results of mwSession_send, and the order in which GLib walks a hash table. A service's
-- functions for channels (Hooks) give the calls that they make on the channel, one after the
-- other, decided from what they are given and the channel, which holds all that the service was
-- told of it; on a channel that was freed they make none. Life/Protocol supposes of them only
-- that a recv does not destroy a channel whose queue is walked at that time, after which the code
-- would use freed memory. A channel that was freed is marked as such. g_ascii_isspace is an
-- argument, of which Laws/Groups supposes four values.
--
-- Bounds: `gsize` has 64 bits, and the writers are followed up to max_wire, 2 ^ 62 bytes in one
-- buffer, below which no count wraps around. The doubling loop of ensure_buffer runs on 64 rounds
-- of fuel: more doublings take any length out of the 64 bits, and up to max_wire they are enough.
-- A failing allocation ends the program, as it does with GLib. The words of the ciphers are of
-- type int, whose 32 bits wrap around; their loops count in int, so data is shorter than 2 ^ 31
-- bytes. mwSession_recv runs on a round for each byte of the input, which is enough, since each
-- round takes one byte at least. list_get runs on a round for each character of the text and one
-- more, as each line has a character. In Load the outcome is
-- `undefined` where the source uses memory that is not its own: a user before any group, and an id
-- that starts with two colons; `unfinished` would be a loop that used up its fuel.
--
-- Not modelled: functions that only release memory (mwPutBuffer_free, mwGetBuffer_free,
-- mwOpaque_free, mwEncryptItem_free, mwMessage_free, mwSession_free, mwService_free and the
-- _clear functions of src/message.c), the way of a message from the session to its channel (a
-- session only records what it hands on), the statistics of a channel, the session's table of
-- ciphers and its client data, the services but the resolve service (src/srvc_*.c), the tables
-- and logging of src/error.c, src/mw_debug.c and src/mw_util.c, and the copy of the library MPI
-- under src/mpi, which is not this program's own.
pub mod Base
pub mod Buffer
pub mod Basic
pub mod Common
pub mod Message
pub mod Cipher
pub mod Session
mod Witnesses
pub mod Service
pub mod Channel
pub mod SametimeList
pub mod Resolve
