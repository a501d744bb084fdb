-- ===== src/Tcp/Header.antt =====
-- The fields that `packet_handler` of tcp.cpp reads from a packet, and its walk over the options.
use myip.Base.{
  ℕ, zero, suc, ◌+◌, ◌*◌, Bool, true, false, ◌&&◌, ◌||◌, none, some, List, ◌==◌, leb, if◌then◌else◌,
  get_or, get_elem?, shr,
}
use myip.Tcp.State.{has_flag}
use myip.Tcp.Segment.{be32_value, be16_value}

pub record Header : Type 0 where
  pub flag_fin : Bool
  pub flag_syn : Bool
  pub flag_rst : Bool
  pub flag_ack : Bool
  pub src_port : ℕ
  pub dst_port : ℕ
  pub their_seq_nr : ℕ
  pub ack_to : ℕ
  pub header_size : ℕ
  pub win_size : ℕ

-- The packet has at least 20 bytes here, so no read is out of range.
unfoldable pub read_header : List ℕ → Header
read_header p =
    let b = λ (i : ℕ). get_or p i 0 in
    record {
      flag_fin = has_flag (b 13) 1;
      flag_syn = has_flag (b 13) 2;
      flag_rst = has_flag (b 13) 4;
      flag_ack = has_flag (b 13) 16;
      src_port = be16_value (b 0) (b 1);
      dst_port = be16_value (b 2) (b 3);
      their_seq_nr = be32_value (b 4) (b 5) (b 6) (b 7);
      ack_to = be32_value (b 8) (b 9) (b 10) (b 11);
      header_size = shr (b 12) 4 * 4;
      win_size = be16_value (b 14) (b 15);
    }

-- The loop ends with the time stamp to return, or reads behind the packet, or has no fuel left.
pub data Scan : Type 0 where
  done : ℕ → Scan
  overread endless : Scan

abbrev pub read : List ℕ → ℕ → (ℕ → Scan) → Scan
read p i k = elim (get_elem? p i) [ none ↦ overread | some x ↦ k x ]

abbrev pub read_ts : List ℕ → ℕ → (ℕ → Scan) → Scan
read_ts p i k =
    read p i (λ a.
      read p (i + 1) (λ b. read p (i + 2) (λ c. read p (i + 3) (λ d. k (be32_value a b c d)))))

-- `TSecr` after the test of one option.
abbrev pub take_ts : List ℕ → ℕ → ℕ → Bool → ℕ → ℕ → (ℕ → Scan) → Scan
take_ts p cur stop flag_ack kind ts k =
    if kind == 8 && flag_ack && leb (cur + 6) stop then read_ts p (cur + 2) k else k ts

-- How far the option reaches: 1 byte for the kinds 0 and 1, else what its second byte says.
abbrev pub option_size : List ℕ → ℕ → ℕ → (ℕ → Scan) → Scan
option_size p cur kind k = if kind == 0 || kind == 1 then k 1 else read p (cur + 1) k

-- `while(extra_headers_end - 2 >= cur_extra_headers_p)`, from offset `cur` to `stop`.
unfoldable pub scan_options : ℕ → List ℕ → ℕ → ℕ → Bool → ℕ → Scan
scan_options zero p cur stop flag_ack ts = endless
scan_options (suc fuel) p cur stop flag_ack ts = elim (leb (cur + 2) stop) [
  | false ↦ done ts
  | true ↦ read p cur (λ kind.
      take_ts p cur stop flag_ack kind ts (λ ts'.
        option_size p cur kind (λ size. scan_options fuel p (cur + size) stop flag_ack ts')))
]
