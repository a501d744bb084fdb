-- ===== src/Kiss.antt =====
-- `class phys_kiss` of phys_kiss.cpp: the framing of AX.25 packets on a serial line. The device, its
-- reconnection and the capture of packets are left out.
pub mod Link
use myip.Base.{
  ℕ, ◌+◌, ◌*◌, Bool, true, false, List, [], ◌∷◌, ◌++◌, ◌==◌, if◌then◌else◌, length, drop,
}
use myip.Ax25.{Frame, generate_packet}

abbrev pub max_packet_size : ℕ
max_packet_size = 256

unfoldable pub escape_put : ℕ → List ℕ
escape_put c =
    if c == 0xc0 then 0xdb ∷ 0xdc ∷ [] else (if c == 0xdb then 0xdb ∷ 0xdd ∷ [] else c ∷ [])

-- The loop over the bytes of a packet.
unfoldable pub escape_all : List ℕ → List ℕ
escape_all [] = []
escape_all (c ∷ packet) = escape_put c ++ escape_all packet

-- The bytes that are written for a packet: the command and the channel are 0.
unfoldable pub transmit : List ℕ → List ℕ
transmit packet = 0xc0 ∷ (escape_put 0 ++ (escape_all packet ++ 0xc0 ∷ []))

-- The size of the buffer that they are put in.
abbrev pub max_len : List ℕ → ℕ
max_len packet = length packet * 2 + 3

unfoldable pub transmit_ax25 : Frame → List ℕ
transmit_ax25 a = transmit (generate_packet a)

-- The variables of `handle_kiss` between two bytes; `p` is its first `len` bytes.
pub record Reader : Type 0 where
  pub escape : Bool
  pub p : List ℕ

abbrev pub reading : List ℕ → Reader
reading p = record { escape = false; p = p }

-- The byte behind an escape byte.
abbrev pub unescape : ℕ → List ℕ
unescape buffer = if buffer == 0xdc then 0xc0 ∷ [] else (if buffer == 0xdd then 0xdb ∷ [] else [])

-- A byte that arrives: the packets that go to process_kiss_packet, without their command byte, and the
-- variables after it. A byte that finds the buffer full begins another packet.
unfoldable pub step : Reader → ℕ → List (List ℕ) × Reader
step s buffer =
    let full = length s.p == max_packet_size in
    if s.escape
    then ([], if full then reading [] else reading (s.p ++ unescape buffer))
    else (if buffer == 0xc0
        then (if length s.p == 0 then ([], s) else (drop 1 s.p ∷ [], reading []))
        else (if buffer == 0xdb
            then ([], record s { escape = true })
            else ([], if full then reading [] else reading (s.p ++ buffer ∷ []))))

-- The bytes that arrive.
unfoldable pub handle_kiss : Reader → List ℕ → List (List ℕ) × Reader
unfolding step
handle_kiss s [] = ([], s)
handle_kiss s (buffer ∷ line) =
    let next = step s buffer in let rest = handle_kiss next.1 line in (next.0 ++ rest.0, rest.1)
