-- ===== src/Slip.antt =====
-- `class phys_slip` of phys_slip.cpp: the framing of packets on a serial line, RFC 1055.
pub mod RoundTrip
use myip.Base.{ℕ, Bool, true, false, List, [], ◌∷◌, ◌++◌, ◌==◌, ltb, if◌then◌else◌, length}

-- The loop of `transmit_packet` over the payload.
unfoldable pub escape : List ℕ → List ℕ
escape [] = []
escape (x ∷ payload) =
    let rest = escape payload in
    if x == 0xc0 then 0xdb ∷ 0xdc ∷ rest else (if x == 0xdb then 0xdb ∷ 0xdd ∷ rest else x ∷ rest)

-- `transmit_packet`: the bytes that it writes to the line.
unfoldable pub transmit_packet : List ℕ → List ℕ
unfolding escape
transmit_packet payload = 0xc0 ∷ escape payload ++ 0xc0 ∷ []

-- An END byte: a packet of 20 bytes or more goes to the IPv4 stack, if one is attached.
unfoldable pub end_of_packet : Bool → List ℕ → List (List ℕ)
end_of_packet attached packet_buffer =
    if ltb (length packet_buffer) 20 then [] else (if attached then packet_buffer ∷ [] else [])

-- The byte behind an ESCAPE byte.
unfoldable pub unescape : ℕ → List ℕ
unescape buffer2 =
    if buffer2 == 0xdc then 0xc0 ∷ [] else (if buffer2 == 0xdd then 0xdb ∷ [] else [])

-- `operator()` on the bytes that arrive: the packets that it queues, and `packet_buffer` after them.
-- A read behind the last byte leaves `buffer2` at 0, which is not stored.
unfoldable pub receive : Bool → List ℕ → List ℕ → List (List ℕ) × List ℕ
unfolding end_of_packet unescape
receive attached packet_buffer [] = ([], packet_buffer)
receive attached packet_buffer (buffer ∷ []) = elim (buffer == 0xdb) [
  | true ↦ ([], packet_buffer)
  | false ↦
      if buffer == 0xc0
      then (end_of_packet attached packet_buffer, [])
      else ([], packet_buffer ++ buffer ∷ [])
]
receive attached packet_buffer (buffer ∷ next ∷ line) = elim (buffer == 0xdb) [
  | true ↦ receive attached (packet_buffer ++ unescape next) line
  | false ↦ elim (buffer == 0xc0) [
    | true ↦ (
      end_of_packet attached packet_buffer ++ (receive attached [] (next ∷ line)).0,
      (receive attached [] (next ∷ line)).1,
    )
    | false ↦ receive attached (packet_buffer ++ buffer ∷ []) (next ∷ line)
  ]
]
