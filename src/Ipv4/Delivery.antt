-- ===== src/Ipv4/Delivery.antt =====
-- What ipv4.cpp sends is what ipv4.cpp delivers on the other side.
use myip.Base.{
  if◌then◌else◌, ◌&&◌, ℕ, zero, suc, ◌+◌, ◌*◌, ◌-◌, ◌<◌, ◌≤◌, ◌≡◌, refl, ap, ◌∙◌, true, false,
  Option, some, none, List, [], ◌∷◌, ◌++◌, ltb, arith, length, length-append, take-append, take, u8,
  u32, shr, shl, bit_or, All,
}
use myip.Addr.Defs.{AnyAddr, ipv4, make, get_exactly, same_addr, set, same_family}
use myip.Addr.Order.{same_make}
use myip.Checksum.{ip_checksum, sum_loop, fold}
use myip.Checksum.Verify.{checksum_verifies, IsByte}
use myip.Tcp.Wire.{be16_value-be16}
use myip.Cache.{update_cache, Cache}
use myip.Ipv4.{
  Ipv4, Packet, Routed, queued, packet_with, tos_of, packet_bytes, transmit_packet, transmit_from,
  accept, pkt_dst, receive, check_ttl, check_sizes, learn, registered, delivered,
}

sum_loop-append :
    (n acc : ℕ) (p q : List ℕ) → length p ≡ 2 * n → sum_loop n acc (p ++ q) ≡ sum_loop n acc p
unfolding sum_loop
sum_loop-append zero acc [] [] h = refl
sum_loop-append zero acc [] (x ∷ q) h = refl
sum_loop-append zero acc (x ∷ p) q h = absurd (omega arith)
sum_loop-append (suc n) acc [] q h = absurd (omega arith)
sum_loop-append (suc n) acc (x ∷ []) q h = absurd (omega arith)
sum_loop-append (suc n) acc (x ∷ y ∷ p) q h =
    sum_loop-append n (u32 (acc + (256 * x + y))) p q (omega arith)

-- A checksum reads no more than its words.
ip_checksum-append :
    (n : ℕ) (p q : List ℕ) → length p ≡ 2 * n → ip_checksum (p ++ q) n ≡ ip_checksum p n
unfolding ip_checksum
ip_checksum-append n p q h = ap fold (sum_loop-append n 0 p q h)

abbrev front : ℕ → ℕ → ℕ → List ℕ
front tos size protocol =
    0x45 ∷ tos ∷ u8 (shr size 8) ∷ u8 size ∷ 0 ∷ 0 ∷ 0x40 ∷ 0 ∷ 64 ∷ protocol ∷ []

-- The header of a packet that is sent, with a type of service and a protocol of one byte each and two
-- addresses of four bytes, verifies: the checksum of its ten words is 0, whatever the payload is.
ip_checksum-packet_bytes :
    (tos protocol s0 s1 s2 s3 d0 d1 d2 d3 : ℕ) (payload : List ℕ)
    → All IsByte (tos ∷ protocol ∷ [])
    → All IsByte (s0 ∷ s1 ∷ s2 ∷ s3 ∷ d0 ∷ d1 ∷ d2 ∷ d3 ∷ [])
    → ip_checksum
        (packet_bytes tos protocol (s0 ∷ s1 ∷ s2 ∷ s3 ∷ []) (d0 ∷ d1 ∷ d2 ∷ d3 ∷ []) payload)
        10
      ≡ 0
unfolding packet_bytes packet_with
ip_checksum-packet_bytes tos protocol s0 s1 s2 s3 d0 d1 d2 d3 payload h k =
    let size = 20 + length payload in
    let pre = front tos size protocol in
    let post : List ℕ = s0 ∷ s1 ∷ s2 ∷ s3 ∷ d0 ∷ d1 ∷ d2 ∷ d3 ∷ [] in
    let whole : (c : ℕ)
        → ip_checksum ((pre ++ shr c 8 ∷ u8 c ∷ post) ++ payload) 10
          ≡ ip_checksum (pre ++ shr c 8 ∷ u8 c ∷ post) 10 =
      λ c. ip_checksum-append 10 (pre ++ shr c 8 ∷ u8 c ∷ post) payload refl in
    let c = ip_checksum (pre ++ 0 ∷ 0 ∷ post) 10 in
    let bytes : All IsByte pre = (
      omega arith,
      (
        h.0,
        (
          omega arith,
          (
            omega arith,
            (omega arith, (omega arith, (omega arith, (omega arith, (omega arith, (h.1.0, tt)))))),
          ),
        ),
      ),
    ) in
    whole _
    ∙ ap (λ t. ip_checksum (pre ++ shr t 8 ∷ u8 t ∷ post) 10) (whole 0)
    ∙ checksum_verifies 5 10 pre post refl refl (omega arith) bytes k

-- A packet from the link layer.
abbrev pub from_link : AnyAddr → AnyAddr → List ℕ → Packet
from_link hw dst_mac bytes = record {
  src_mac_addr = hw;
  src_addr = hw;
  dst_addr = dst_mac;
  data_ = bytes;
  header = [];
  is_forwarded = false;
}

get_exactly-set : (a : AnyAddr) (x : List ℕ) → get_exactly a 4 ≡ some x → a.is_set ≡ true
unfolding get_exactly
get_exactly-set a x h = ground arith

module _ (s0 s1 s2 s3 d0 d1 d2 d3 : ℕ) where
  abbrev src_bytes : List ℕ
  src_bytes = s0 ∷ s1 ∷ s2 ∷ s3 ∷ []

  abbrev dst_bytes : List ℕ
  dst_bytes = d0 ∷ d1 ∷ d2 ∷ d3 ∷ []

  -- The packet that a transport layer gets.
  abbrev pub ip_packet : AnyAddr → List ℕ → List ℕ → Packet
  ip_packet hw payload header = record {
    src_mac_addr = hw;
    src_addr = make ipv4 src_bytes;
    dst_addr = make ipv4 dst_bytes;
    data_ = payload;
    header = header;
    is_forwarded = false;
  }

  transmit_from_lem :
      (dst_mac : Option AnyAddr) (dst_ip src_ip : AnyAddr) (protocol : ℕ) (payload : List ℕ)
      (tos : ℕ)
      → get_exactly src_ip 4 ≡ some src_bytes
      → get_exactly dst_ip 4 ≡ some dst_bytes
      → transmit_from dst_mac dst_ip src_ip protocol payload tos
        ≡ some (record {
          dst_mac = dst_mac;
          ether_type = 0x0800;
          dst_ip = dst_ip;
          src_mac = none;
          src_ip = src_ip;
          payload = packet_bytes tos protocol src_bytes dst_bytes payload;
        })
  unfolding transmit_from
  transmit_from_lem dst_mac dst_ip src_ip protocol payload tos hs hd =
      rw (transmit_from, hs, hd) refl

  transmit_packet_lem :
      (a : Ipv4) (dst_mac : Option AnyAddr) (dst_ip src_ip : AnyAddr) (protocol : ℕ)
      (payload : List ℕ) (template : Option (List ℕ))
      → get_exactly src_ip 4 ≡ some src_bytes
      → get_exactly dst_ip 4 ≡ some dst_bytes
      → src_ip.af ≡ ipv4
      → dst_ip.af ≡ ipv4
      → transmit_packet a dst_mac dst_ip src_ip protocol payload template
        ≡ some (record {
          dst_mac = dst_mac;
          ether_type = 0x0800;
          dst_ip = dst_ip;
          src_mac = none;
          src_ip = src_ip;
          payload = packet_bytes (tos_of template) protocol src_bytes dst_bytes payload;
        })
  unfolding transmit_packet
  transmit_packet_lem a dst_mac dst_ip src_ip protocol payload template hs hd fs fd =
      let set : src_ip.is_set ≡ true = get_exactly-set src_ip src_bytes hs in
      let both : same_family dst_ip.af ipv4 && same_family src_ip.af ipv4 ≡ true =
        rw (fd, fs) refl in
      let chosen : (if src_ip.is_set then src_ip else a.myip) ≡ src_ip =
        ap (λ b. if b then src_ip else a.myip) set in
      ap
        (λ b.
          if b
          then transmit_from dst_mac dst_ip (if src_ip.is_set then src_ip else a.myip) protocol
              payload (tos_of template)
          else none)
        both
      ∙ ap (λ q. transmit_from dst_mac dst_ip q protocol payload (tos_of template)) chosen
      ∙ transmit_from_lem dst_mac dst_ip src_ip protocol payload (tos_of template) hs hd

  accept_lem :
      (b : Ipv4) (pkt : Packet) (size protocol : ℕ)
      → size ≤ length pkt.data_
      → 20 ≤ size
      → registered b.prot_map protocol ≡ true
      → same_addr (pkt_dst pkt.data_) b.myip ≡ true
      → accept b pkt 20 size protocol
        ≡ (record b { ip_n_del = b.ip_n_del + 1 }, queued protocol (delivered pkt 20 size) ∷ [])
  unfolding accept
  accept_lem b pkt size protocol h k reg same =
      let one : ltb (length pkt.data_) size ≡ false = ground arith in
      let two : ltb size 20 ≡ false = ground arith in rw (one, two, reg, same) refl

  check_sizes-packet_with :
      (b : Ipv4) (hw dst_mac : AnyAddr) (tos protocol checksum : ℕ) (payload padding : List ℕ)
      → b.myip ≡ make ipv4 dst_bytes
      → registered b.prot_map protocol ≡ true
      → 20 + length payload < 65536
      → let p = packet_with tos protocol src_bytes dst_bytes payload checksum in
        check_sizes b (from_link hw dst_mac (p ++ padding)) ≡ (
          record b { ip_n_del = b.ip_n_del + 1 },
          queued protocol (ip_packet hw payload (take 20 p)) ∷ [],
        )
  unfolding check_sizes packet_with delivered set
  check_sizes-packet_with b hw dst_mac tos protocol checksum payload padding my reg small =
      let p = packet_with tos protocol src_bytes dst_bytes payload checksum in
      let len = length payload in
      let size : bit_or (shl (u8 (shr (20 + len) 8)) 8) (u8 (20 + len)) ≡ 20 + len =
        be16_value-be16 (20 + len) ∙ omega arith in
      let same : same_addr (make ipv4 dst_bytes) b.myip ≡ true = rw my (same_make ipv4 dst_bytes) in
      let pkt = from_link hw dst_mac (p ++ padding) in
      let fits : 20 + len ≤ length pkt.data_ = omega (arith, length-append payload padding) in
      let content : take (20 + len - 20) (payload ++ padding) ≡ payload =
        ap (λ (n : ℕ). take n (payload ++ padding)) (omega arith) ∙ take-append payload padding in
      ap (λ t. accept b pkt 20 t protocol) size
      ∙ accept_lem b pkt (20 + len) protocol fits (omega arith) reg same
      ∙ ap
          (λ (t : List ℕ). (
            record b { ip_n_del = b.ip_n_del + 1 },
            queued protocol (ip_packet hw t (take 20 p)) ∷ [],
          ))
          content

  receive-packet_with :
      (b : Ipv4) (c : Cache) (hw my_mac : AnyAddr) (tos protocol checksum interface now : ℕ)
      (payload padding : List ℕ)
      → b.myip ≡ make ipv4 dst_bytes
      → registered b.prot_map protocol ≡ true
      → 20 + length payload < 65536
      → update_cache b.iarp hw (make ipv4 src_bytes) interface false now ≡ some c
      → let p = packet_with tos protocol src_bytes dst_bytes payload checksum in
        receive b interface (from_link hw my_mac (p ++ padding)) now
        ≡ some (
          record b {
            iarp = c;
            ip_n_pkt = b.ip_n_pkt + 1;
            ipv4_n_pkt = b.ipv4_n_pkt + 1;
            ip_n_del = b.ip_n_del + 1;
          },
          queued protocol (ip_packet hw payload (take 20 p)) ∷ [],
        )
  unfolding receive learn check_ttl packet_with set
  receive-packet_with b c hw my_mac tos protocol checksum interface now payload padding my reg small
        known =
      let p = packet_with tos protocol src_bytes dst_bytes payload checksum in
      let big : ltb (length (p ++ padding)) 20 ≡ false = ground arith in
      let s : Ipv4 = record b {
        ip_n_pkt = b.ip_n_pkt + 1;
        ipv4_n_pkt = b.ipv4_n_pkt + 1;
        iarp = c;
      } in
      rw (big, known)
        (ap some
          (check_sizes-packet_with s hw my_mac tos protocol checksum payload padding my reg small))

  -- A payload that one host sends with `transmit_packet`, from an address of four bytes to another,
  -- reaches the protocol's layer of the host with the other address as it was, with both addresses
  -- and the 20 bytes of the header, whatever bytes the link layer appends, if that layer is
  -- registered, the whole packet has less than 65536 bytes and the ARP cache takes the sender in. The
  -- packet is counted as delivered and as nothing else.
  pub transmit_packet-queued :
      (a b : Ipv4) (c : Cache) (dst_mac : Option AnyAddr) (dst_ip src_ip hw my_mac : AnyAddr)
      (protocol interface now : ℕ) (payload padding : List ℕ) (template : Option (List ℕ))
      → get_exactly src_ip 4 ≡ some src_bytes
      → get_exactly dst_ip 4 ≡ some dst_bytes
      → src_ip.af ≡ ipv4
      → dst_ip.af ≡ ipv4
      → b.myip ≡ make ipv4 dst_bytes
      → registered b.prot_map protocol ≡ true
      → 20 + length payload < 65536
      → update_cache b.iarp hw (make ipv4 src_bytes) interface false now ≡ some c
      → (q : Routed) × (transmit_packet a dst_mac dst_ip src_ip protocol payload template ≡ some q)
        × (receive b interface (from_link hw my_mac (q.payload ++ padding)) now
            ≡ some (
              record b {
                iarp = c;
                ip_n_pkt = b.ip_n_pkt + 1;
                ipv4_n_pkt = b.ipv4_n_pkt + 1;
                ip_n_del = b.ip_n_del + 1;
              },
              queued protocol (ip_packet hw payload (take 20 q.payload)) ∷ [],
            ))
  unfolding packet_bytes
  transmit_packet-queued a b c dst_mac dst_ip src_ip hw my_mac protocol interface now payload
        padding template hs hd fs fd my reg small known =
      (
        _,
        transmit_packet_lem a dst_mac dst_ip src_ip protocol payload template hs hd fs fd,
        receive-packet_with b c hw my_mac (tos_of template) protocol _ interface now payload padding
            my reg small known,
      )
