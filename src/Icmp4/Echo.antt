-- ===== src/Icmp4/Echo.antt =====
-- What icmp4.cpp answers to an echo request, and its error messages.
use myip.Base.{
  ℕ, zero, suc, ◌+◌, ◌*◌, ◌/◌, ◌%◌, ◌<◌, ◌≤◌, ◌≡◌, refl, sym, ap, ◌∙◌, false, some, List, [], ◌∷◌,
  ◌++◌, arith, length, length-append, length-take, take-append, drop-append, take, drop, u8, shr,
  All, All-append, All-take, length-replicate, bit_and_low, replicate, min, ltb, bit_and,
}
use myip.Addr.Defs.{AnyAddr}
use myip.Checksum.{ip_checksum}
use myip.Checksum.Verify.{checksum_verifies, IsByte}
use myip.Ipv4.{Packet}
use myip.Icmp4.{Transmitted, receive, reply_to, with_checksum, header_copy, send_packet, error_with}

abbrev pub echo_request : Packet → ℕ → ℕ → ℕ → List ℕ → Packet
echo_request pkt code c0 c1 rest = record pkt { data_ = 8 ∷ code ∷ c0 ∷ c1 ∷ rest }

-- The packet with the answer.
abbrev pub echo_reply : Packet → ℕ → List ℕ → Transmitted
echo_reply pkt code rest =
    let checksum = ip_checksum (0 ∷ code ∷ 0 ∷ 0 ∷ rest) (length (8 ∷ code ∷ 0 ∷ 0 ∷ rest) / 2) in
    record {
      dst_ip = pkt.src_addr;
      src_ip = pkt.dst_addr;
      protocol = 1;
      payload = 0 ∷ code ∷ shr checksum 8 ∷ u8 checksum ∷ rest;
      header_template = some (header_copy pkt.header);
    }

-- An echo request of an even size from 8 to 131070, whatever its checksum, gets one answer: it goes
-- from the address that was asked to the one that asked, has type 0, the request's code and all of
-- the bytes behind the checksum, the identifier and the sequence number among them, and its own
-- checksum verifies.
pub receive-echo :
    (pkt : Packet) (code c0 c1 n ms : ℕ) (rest : List ℕ)
    → 4 ≤ length rest
    → 4 + length rest ≡ 2 * n
    → n ≤ 65535
    → All IsByte (code ∷ rest)
    → (receive (echo_request pkt code c0 c1 rest) ms ≡ echo_reply pkt code rest ∷ [])
      × (ip_checksum (echo_reply pkt code rest).payload n ≡ 0)
unfolding receive reply_to with_checksum
receive-echo pkt code c0 c1 n ms rest enough h k bytes =
    let big : ltb (length (8 ∷ code ∷ c0 ∷ c1 ∷ rest)) 8 ≡ false = ground arith in
    let half : length (8 ∷ code ∷ 0 ∷ 0 ∷ rest) / 2 ≡ n = omega arith in
    let whole : length (0 ∷ code ∷ 0 ∷ 0 ∷ rest) ≡ 2 * n = omega arith in
    (
      rw big refl,
      ap
            (λ (m : ℕ).
              let c = ip_checksum (0 ∷ code ∷ 0 ∷ 0 ∷ rest) m in
              ip_checksum (0 ∷ code ∷ shr c 8 ∷ u8 c ∷ rest) n)
            half
          ∙ checksum_verifies 1 n (0 ∷ code ∷ []) rest refl whole k (omega arith, (bytes.0, tt))
              bytes.1,
    )

take_nil : (m : ℕ) → take {A = ℕ} m [] ≡ []
take_nil zero = refl
take_nil (suc m) = refl

take-min : (n : ℕ) (xs : List ℕ) → take (min n (length xs)) xs ≡ take n xs
take-min zero xs =
    let none_left : min 0 (length xs) ≡ 0 = omega arith in ap (λ (m : ℕ). take m xs) none_left
take-min (suc n) [] = take_nil _
take-min (suc n) (x ∷ xs) =
    let one : min (suc n) (suc (length xs)) ≡ suc (min n (length xs)) = omega arith in
    ap (λ (m : ℕ). take m (x ∷ xs)) one ∙ ap (λ t. x ∷ t) (take-min n xs)

bytes-replicate : (n : ℕ) → All IsByte (replicate n 0)
bytes-replicate zero = tt
bytes-replicate (suc n) = (omega arith, bytes-replicate n)

-- An error message about a packet with a header of at most 60 bytes has an even size of at most 76,
-- holds that packet's header behind 8 bytes of its own, and behind that the first bytes of its
-- payload, 8 or as many as there are, and its checksum verifies.
send_packet-verifies :
    (dst_ip src_ip : AnyAddr) (type code mtu : ℕ) (p : Packet)
    → type < 256
    → code < 256
    → length p.header ≤ 60
    → All IsByte p.header
    → All IsByte p.data_
    → let out = (send_packet dst_ip src_ip type code mtu p).payload in
      (n : ℕ) × (length out ≡ 2 * n)
      × (n ≤ 38)
      × (take (length p.header) (drop 8 out) ≡ p.header)
      × (take (min 8 (length p.data_)) (drop (length p.header) (drop 8 out)) ≡ take 8 p.data_)
      × (ip_checksum out n ≡ 0)
unfolding send_packet error_with
send_packet-verifies dst_ip src_ip type code mtu p ht hc small hb db =
    let pl_size = min 8 (length p.data_) in
    let t : List ℕ = take pl_size p.data_ in
    let pad : List ℕ = replicate ((8 + length p.header + pl_size) % 2) 0 in
    let t_length : length t ≡ pl_size = omega (arith, length-take pl_size p.data_) in
    let pad_length : length pad ≡ (8 + length p.header + pl_size) % 2 = length-replicate _ 0 in
    let n : ℕ = (9 + length p.header + pl_size) / 2 in
    let rest : List ℕ = p.header ++ (t ++ pad) in
    let rest_length : 8 + length rest ≡ 2 * n =
      omega (arith, length-append p.header (t ++ pad), length-append t pad) in
    let post : List ℕ = 0 ∷ 0 ∷ u8 (shr mtu 8) ∷ bit_and mtu 255 ∷ rest in
    let bytes : All IsByte post = (
      omega arith,
      (
        omega arith,
        (
          omega arith,
          (
            omega (arith, bit_and_low 8 mtu),
            All-append IsByte p.header (t ++ pad) hb
                (All-append IsByte t pad (All-take IsByte pl_size p.data_ db) (bytes-replicate _)),
          ),
        ),
      ),
    ) in
    let half : (length (type ∷ code ∷ 0 ∷ 0 ∷ post) + 1) / 2 ≡ n = omega arith in
    (
      n,
      omega arith,
      omega arith,
      take-append p.header (t ++ pad),
      ap (take pl_size) (drop-append p.header (t ++ pad))
          ∙ ap (λ (m : ℕ). take m (t ++ pad)) (sym t_length)
          ∙ take-append t pad
          ∙ take-min 8 p.data_,
      ap
            (λ (m : ℕ).
              let c = ip_checksum (type ∷ code ∷ 0 ∷ 0 ∷ post) m in
              ip_checksum (type ∷ code ∷ shr c 8 ∷ u8 c ∷ post) n)
            half
          ∙ checksum_verifies 1 n (type ∷ code ∷ []) post refl (omega arith) (omega arith)
              (ht, (hc, tt)) bytes,
    )
