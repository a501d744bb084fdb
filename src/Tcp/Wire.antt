-- ===== src/Tcp/Wire.antt =====
-- The bytes of a segment: what `send_segment` of tcp.cpp writes is what `packet_handler` reads, and
-- what the options' walk finds in it.
use myip.Base.{
  subst, sym, List, Bool, false, if◌then◌else◌, ℕ, ◌+◌, ◌*◌, ◌%◌, ◌^◌, ◌<◌, ◌≡◌, refl, ap, ◌∙◌,
  true, some, arith, drop, u8, u32, shl, shr, bit_or, bit_or-shl,
}
use myip.Tcp.State.{Segment, has_flag}
use myip.Tcp.Segment.{segment_with, be32_value, be16_value}
use myip.Tcp.Header.{read_header, done, scan_options}

-- Four bytes joined by shifts and `|` are their number; so are two.
pub be32_value-sum :
    (a b c d : ℕ)
    → b < 256
    → c < 256
    → d < 256
    → be32_value a b c d ≡ a * 2 ^ 24 + b * 2 ^ 16 + c * 2 ^ 8 + d
be32_value-sum a b c d hb hc hd =
    let one : bit_or (shl a 24) (shl b 16) ≡ (a * 2 ^ 8 + b) * 2 ^ 16 =
      bit_or-shl 24 a (shl b 16) (omega arith) ∙ omega arith in
    let two : bit_or ((a * 2 ^ 8 + b) * 2 ^ 16) (shl c 8) ≡ ((a * 2 ^ 8 + b) * 2 ^ 8 + c) * 2 ^ 8 =
      bit_or-shl 16 (a * 2 ^ 8 + b) (shl c 8) (omega arith) ∙ omega arith in
    rw (one, two) (bit_or-shl 8 ((a * 2 ^ 8 + b) * 2 ^ 8 + c) d (omega arith) ∙ omega arith)

pub be16_value-sum : (a b : ℕ) → b < 256 → be16_value a b ≡ a * 256 + b
be16_value-sum a b h = bit_or-shl 8 a b h

pub be32_value-be32 :
    (x : ℕ) → be32_value (u8 (shr x 24)) (u8 (shr x 16)) (u8 (shr x 8)) (u8 x) ≡ u32 x
be32_value-be32 x =
    be32_value-sum (u8 (shr x 24)) (u8 (shr x 16)) (u8 (shr x 8)) (u8 x) (omega arith) (omega arith)
      (omega arith)
    ∙ omega arith

pub be16_value-be16 : (x : ℕ) → be16_value (u8 (shr x 8)) (u8 x) ≡ x % 65536
be16_value-be16 x = be16_value-sum (u8 (shr x 8)) (u8 x) (omega arith) ∙ omega arith

-- The fields of a segment fit their places.
pub record IsSegment (s : Segment) (q : ℕ) : Type 0 where
  pub numbered : s.seq ≡ some q
  pub seq_fits : q < 2 ^ 32
  pub my_port_fits : s.my_port < 65536
  pub peer_port_fits : s.peer_port < 65536
  pub ack_fits : s.ack_to < 2 ^ 32
  pub flags_fit : s.flags < 256

read_header-fields :
    (s : Segment) (q checksum : ℕ)
    → IsSegment s q
    → let p = segment_with s checksum in
      let h = read_header p in
      (h.src_port ≡ s.my_port)
      × (h.dst_port ≡ s.peer_port)
      × (h.their_seq_nr ≡ q)
      × (h.ack_to ≡ s.ack_to)
      × (h.flag_fin ≡ has_flag s.flags 1)
      × (h.flag_syn ≡ has_flag s.flags 2)
      × (h.flag_rst ≡ has_flag s.flags 4)
      × (h.flag_ack ≡ has_flag s.flags 16)
      × (h.header_size ≡ 32)
      × (h.win_size ≡ 65535)
      × (drop h.header_size p ≡ s.content)
unfolding read_header segment_with
read_header-fields s q checksum v =
    let flags : u8 s.flags ≡ s.flags = omega (arith, v.flags_fit) in
    rw (v.numbered, flags)
      (
        be16_value-be16 s.my_port ∙ omega (arith, v.my_port_fits),
        be16_value-be16 s.peer_port ∙ omega (arith, v.peer_port_fits),
        be32_value-be32 q ∙ omega (arith, v.seq_fits),
        be32_value-be32 s.ack_to ∙ omega (arith, v.ack_fits),
        refl,
        refl,
        refl,
        refl,
        refl,
        refl,
        refl,
      )

-- The time stamp in the options, which the flag ACK decides on.
scan_options-stamp :
    (s : Segment) (q checksum : ℕ) (f : Bool)
    → IsSegment s q
    → scan_options 64 (segment_with s checksum) 20 32 f 0 ≡ done (if f then u32 s.us else 0)
unfolding segment_with scan_options
scan_options-stamp s q checksum true v =
    subst
      (λ o.
        scan_options 64 (segment_with (record s { seq = o }) checksum) 20 32 true 0
        ≡ done (u32 s.us))
      (sym v.numbered) (ap done (be32_value-be32 s.us))
scan_options-stamp s q checksum false v =
    subst
      (λ o. scan_options 64 (segment_with (record s { seq = o }) checksum) 20 32 false 0 ≡ done 0)
      (sym v.numbered) refl

-- What a handler reads from the bytes of a segment, whatever the checksum: the ports, both numbers,
-- the flags, a header of 32 bytes, a window of 65535, the content behind the header, and as the
-- time stamp to return the low 32 bits of the sender's clock, or 0 for a segment without the flag ACK.
pub read_header-segment_with :
    (s : Segment) (q checksum : ℕ)
    → IsSegment s q
    → let p = segment_with s checksum in
      let h = read_header p in
      (h.src_port ≡ s.my_port)
      × (h.dst_port ≡ s.peer_port)
      × (h.their_seq_nr ≡ q)
      × (h.ack_to ≡ s.ack_to)
      × (h.flag_fin ≡ has_flag s.flags 1)
      × (h.flag_syn ≡ has_flag s.flags 2)
      × (h.flag_rst ≡ has_flag s.flags 4)
      × (h.flag_ack ≡ has_flag s.flags 16)
      × (h.header_size ≡ 32)
      × (h.win_size ≡ 65535)
      × (drop h.header_size p ≡ s.content)
      × (scan_options 64 p 20 h.header_size h.flag_ack 0
          ≡ done (if has_flag s.flags 16 then u32 s.us else 0))
read_header-segment_with s q checksum v =
    let p : List ℕ = segment_with s checksum in
    let (a, b, c, d, e, f, g, ack, size, w, content) = read_header-fields s q checksum v in
    (
      a,
      b,
      c,
      d,
      e,
      f,
      g,
      ack,
      size,
      w,
      content,
      ap (λ (n : ℕ). scan_options 64 p 20 n (read_header p).flag_ack 0) size
          ∙ scan_options-stamp s q checksum (read_header p).flag_ack v
          ∙ ap (λ (x : Bool). done (if x then u32 s.us else 0)) ack,
    )
