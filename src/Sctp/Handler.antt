-- ===== src/Sctp/Handler.antt =====
-- `operator()` of sctp.cpp on a packet, HMAC and the CRC-32C given.
use myip.Base.{
  ℕ, zero, suc, ◌-◌, true, false, Option, none, some, List, [], ◌∷◌, ◌++◌, ◌==◌, ltb, if◌then◌else◌,
  length, ◌>>=◌,
}
use myip.Base.Assoc.{erase}
use myip.Addr.Defs.{AnyAddr}
use myip.Buffer.{
  BufferIn, buffer_in, get_net_byte, get_net_short, get_net_long, get_segment, end_reached,
}
use myip.Sctp.{Sctp, Event, transmitted, get_hash, Context, Work}
use myip.Sctp.Chunks.{returned, thrown, endless, on_chunk, skip_padding}
use myip.Sctp.Send.{sctp_packet}

-- How the loop over the chunks ends.
pub data Ended : Type 0 where
  finished truncated : (w : Work) → Ended
  out_of_fuel : Ended

-- The head of a chunk: its type and its length.
unfoldable pub chunk_head : BufferIn → Option ((ℕ × ℕ) × BufferIn)
chunk_head b = do
  type ← get_net_byte b
  flags ← get_net_byte type.1
  len ← get_net_short flags.1
  some ((type.0, len.0), len.1)

abbrev pub begin : Sctp → Work
begin t = record {
  sctp = t;
  reply = [];
  tag = 0xffffffff;
  terminate_session = false;
  send_reply = true;
  n_init = 0;
  events = [];
}

abbrev pub context : AnyAddr → AnyAddr → ℕ → ℕ → (ℕ → ℕ × ℕ) → Context
context their_addr dst_addr source_port destination_port draw = record {
  their_addr = their_addr;
  dst_addr = dst_addr;
  source_port = source_port;
  destination_port = destination_port;
  hash = get_hash their_addr source_port destination_port;
  draw = draw;
}

-- The header: the ports, and what follows it. The tag and the checksum are read and not used.
unfoldable pub read_header : List ℕ → Option ((ℕ × ℕ) × BufferIn)
read_header p = do
  source_port ← get_net_short (buffer_in p)
  destination_port ← get_net_short source_port.1
  my_verification_tag ← get_net_long destination_port.1
  checksum ← get_net_long my_verification_tag.1
  some ((source_port.0, destination_port.0), checksum.1)

module _ (hmac : List ℕ → List ℕ) where
  -- The loop over the chunks.
  unfoldable pub chunks : ℕ → Context → Work → BufferIn → Ended
  unfolding chunk_head on_chunk skip_padding
  chunks zero c w b = if end_reached b then finished w else out_of_fuel
  chunks (suc fuel) c w b = if end_reached b then finished w else elim (chunk_head b) [
    | none ↦ truncated w
    | some ((type, len), body) ↦
        if ltb len 4
        then finished (record w { terminate_session = true })
        else elim (get_segment body (len - 4)) [
          | none ↦ truncated w
          | some (chunk, behind) ↦
              if type == 6
              then finished (record w { terminate_session = true; send_reply = false })
              else elim (on_chunk hmac c w type chunk) [
                | thrown ↦ truncated w
                | endless ↦ out_of_fuel
                | returned w' ↦ elim (skip_padding len behind) [
                  | none ↦ truncated w'
                  | some next ↦ chunks fuel c w' next
                ]
              ]
        ]
  ]

module _ (crc32c : List ℕ → ℕ) where
  -- What follows the loop.
  unfoldable pub finish : Context → Work → Sctp × List Event
  unfolding sctp_packet
  finish c w = (
    if w.terminate_session
        then record w.sctp { sessions = erase c.hash w.sctp.sessions }
        else w.sctp,
    if w.send_reply
        then w.events
          ++ transmitted c.their_addr c.dst_addr
              (sctp_packet crc32c c.destination_port c.source_port w.tag w.reply)
            ∷ []
        else w.events,
  )

  abbrev pub conclude : Context → Ended → Option (Sctp × List Event)
  conclude c (finished w) = some (finish c w)
  conclude c (truncated w) = some (w.sctp, w.events)
  conclude c out_of_fuel = none

module _ (hmac : List ℕ → List ℕ) (crc32c : List ℕ → ℕ) where
  -- `operator()` on the bytes of a packet. `none`: the fuel of the loop over the chunks, the size of the
  -- packet, or of the one over the parameters of an INIT chunk is used up.
  unfoldable pub receive :
      Sctp → AnyAddr → AnyAddr → (ℕ → ℕ × ℕ) → List ℕ → Option (Sctp × List Event)
  unfolding get_hash read_header chunks finish
  receive t their_addr dst_addr draw p =
      if ltb (length p) 12 then some (t, []) else elim (read_header p) [
        | none ↦ some (t, [])
        | some ((source_port, destination_port), b) ↦
            let c = context their_addr dst_addr source_port destination_port draw in
            conclude crc32c c (chunks hmac (length p) c (begin t) b)
      ]
