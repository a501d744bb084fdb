-- ===== src/Sctp.antt =====
-- `class sctp` of sctp.cpp: the chunks that are generated, the chunks that are received, the handler of
-- packets, and the sending of data. HMAC and the CRC-32C are parameters; the applications' functions
-- are taken to be set. Where a length is written over a place holder it stands in its place at once.
pub mod Chunks
pub mod Handler
pub mod Send
pub mod Bounds
pub mod Reading
pub mod Cookie
pub mod Echo
pub mod Handshake
pub mod Stream
use myip.Base.{
  ℕ, zero, suc, ◌+◌, ◌-◌, ◌%◌, Bool, true, false, Option, none, some, List, [], ◌∷◌, ◌++◌, ◌==◌,
  ltb, if◌then◌else◌, length, take, drop, u8, u16, u32, bit_and, min, ◌>>=◌, be16, be32, same_bytes,
}
use myip.Base.Assoc.{find, insert, erase, update}
use myip.Addr.Defs.{AnyAddr}
use myip.Hash.{murmur_hash}
use myip.Buffer.{
  BufferIn, buffer_in, get_net_byte, get_net_short, get_net_long, get_segment, seek, end_reached,
  get_n_bytes_left, peek, add_padding,
}

-- `sctp_session`, with the fields of `session`.
pub record Session : Type 0 where
  pub my_addr : AnyAddr
  pub my_port : ℕ
  pub their_addr : AnyAddr
  pub their_port : ℕ
  pub my_tsn : ℕ
  pub their_tsn : ℕ
  pub my_stream_sequence_nr : ℕ
  pub their_verification_tag : ℕ

-- A listener: what its `new_data` answers.
pub record Listener : Type 0 where
  pub new_data : Session → List ℕ → Bool

pub record Sctp : Type 0 where
  pub sessions : List (ℕ × Session)
  pub listeners : List (ℕ × Listener)
  pub state_cookie_key_timestamp : ℕ

-- The calls of the outside.
pub data Event : Type 0 where
  new_session : (s : Session) → Event
  new_data : (s : Session) → (payload : List ℕ) → Event
  transmitted : (dst_ip src_ip : AnyAddr) → (payload : List ℕ) → Event

-- What `add_any_addr` appends, for an address that is set.
abbrev pub addr_bytes : AnyAddr → List ℕ
addr_bytes a = take a.addr_size a.addr

-- `session::get_hash`
unfoldable pub get_hash : AnyAddr → ℕ → ℕ → ℕ
get_hash their_addr their_port my_port =
    murmur_hash (addr_bytes their_addr ++ (be16 their_port ++ be16 my_port)) 99194853094755497

abbrev pub chunk_gen_abort : List ℕ
chunk_gen_abort = 6 ∷ 0 ∷ 0 ∷ 4 ∷ []

abbrev pub chunk_gen_shutdown : List ℕ
chunk_gen_shutdown = 7 ∷ 0 ∷ 0 ∷ 4 ∷ []

abbrev pub chunk_gen_cookie_ack : List ℕ
chunk_gen_cookie_ack = 11 ∷ 0 ∷ 0 ∷ 4 ∷ []

-- What the handler knows of a packet; `draw` gives the random numbers of its INIT chunks, the first of
-- each pair as it was drawn last, which is not 0.
pub record Context : Type 0 where
  pub their_addr : AnyAddr
  pub dst_addr : AnyAddr
  pub source_port : ℕ
  pub destination_port : ℕ
  pub hash : ℕ
  pub draw : ℕ → ℕ × ℕ

-- The variables of the handler: the chunks of the reply, and the tag in its header.
pub record Work : Type 0 where
  pub sctp : Sctp
  pub reply : List ℕ
  pub tag : ℕ
  pub terminate_session : Bool
  pub send_reply : Bool
  pub n_init : ℕ
  pub events : List Event

-- `add_handler`: the first handler of a port stays.
unfoldable pub add_handler : Sctp → ℕ → Listener → Sctp
unfolding insert
add_handler t port sph = record t { listeners = insert port sph t.listeners }
