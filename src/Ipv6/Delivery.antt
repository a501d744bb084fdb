-- ===== src/Ipv6/Delivery.antt =====
-- What ipv6.cpp sends is what ipv6.cpp delivers on the other side.
use myip.Base.{
  ℕ, zero, suc, ◌+◌, ◌-◌, ◌<◌, ◌≤◌, ◌≡◌, refl, sym, ap, ap₂, ◌∙◌, true, false, Option, some, none,
  List, [], ◌∷◌, ◌++◌, ◌==◌, ltb, leb, arith, length, length-append, take, drop, take-append,
  drop-append, append_assoc, shr, shl, bit_or, get_or,
}
use myip.Addr.Defs.{AnyAddr, ipv6, make, set, get_exactly, same_addr}
use myip.Addr.Order.{same_make}
use myip.Tcp.Wire.{be16_value-be16}
use myip.Cache.{update_cache, Cache}
use myip.Ipv4.{Packet, Routed, Event, queued, registered}
use myip.Ipv4.Delivery.{from_link}
use myip.Ipv6.{
  Ipv6, packet_bytes, transmit_packet, receive, check_size, accept, walk, is_for_me, learn, pkt_src,
  pkt_dst,
}

take-first : (n : ℕ) (xs ys : List ℕ) → length xs ≡ n → take n (xs ++ ys) ≡ take n xs
take-first zero [] ys h = refl
take-first zero (x ∷ xs) ys h = absurd (omega arith)
take-first (suc n) [] ys h = absurd (omega arith)
take-first (suc n) (x ∷ xs) ys h = ap (λ t. x ∷ t) (take-first n xs ys (omega arith))

drop-first : (n : ℕ) (xs ys : List ℕ) → length xs ≡ n → drop n (xs ++ ys) ≡ ys
drop-first n xs ys h = ap (λ (m : ℕ). drop m (xs ++ ys)) (sym h) ∙ drop-append xs ys

walk-stays :
    (fuel eh protocol : ℕ) (p : List ℕ) → eh < 48 → walk fuel p eh protocol 40 ≡ (protocol, 40)
unfolding walk
walk-stays zero eh protocol p h = refl
walk-stays (suc fuel) eh protocol p h = let e : leb 48 eh ≡ false = ground arith in rw e refl

-- An address is made of its first 16 bytes.
make-first : (xs ys : List ℕ) → length xs ≡ 16 → make ipv6 (xs ++ ys) ≡ make ipv6 xs
unfolding set
make-first xs ys h =
    ap (λ t. record { af = ipv6; addr = t ++ []; addr_size = 16; is_set = true })
      (take-first 16 xs ys h)

accept_lem :
    (s : Ipv6) (pkt : Packet) (protocol header_size size : ℕ)
    → registered s.prot_map protocol ≡ true
    → header_size + size ≤ length pkt.data_
    → accept s pkt protocol header_size size
      ≡ some (
        record s { ip_n_del = s.ip_n_del + 1 },
        queued protocol (record {
          src_mac_addr = pkt.src_mac_addr;
          src_addr = pkt_src pkt.data_;
          dst_addr = pkt_dst pkt.data_;
          data_ = take size (drop header_size pkt.data_);
          header = take header_size pkt.data_;
          is_forwarded = false;
        })
            ∷ [],
      )
unfolding accept
accept_lem s pkt protocol header_size size reg h =
    let fits : ltb (length pkt.data_) (header_size + size) ≡ false = ground arith in
    rw (reg, fits) refl

check_size_lem :
    (s : Ipv6) (pkt : Packet) (size : ℕ)
    → 40 + size ≤ length pkt.data_
    → length pkt.data_ < 48 + size
    → check_size s pkt size ≡ accept s pkt (get_or pkt.data_ 6 0) 40 size
unfolding check_size
check_size_lem s pkt size h k =
    let p = pkt.data_ in
    let whole : ltb (length p) size ≡ false = ground arith in
    let near : length p - size < 48 = omega arith in
    rw whole (
      ap (λ (t : ℕ × ℕ). accept s pkt t.0 t.1 size)
        (walk-stays (length p) (length p - size) (get_or p 6 0) p near))

-- A packet for this host, up to its length.
receive_lem :
    (b : Ipv6) (c : Cache) (interface now : ℕ) (pkt : Packet)
    → 40 ≤ length pkt.data_
    → (shr (get_or pkt.data_ 0 0) 4 == 6) ≡ true
    → same_addr (pkt_dst pkt.data_) b.myip ≡ true
    → pkt.is_forwarded ≡ false
    → update_cache b.indp pkt.src_addr (pkt_src pkt.data_) interface false now ≡ some c
    → receive b interface pkt now
      ≡ check_size
          (record b { indp = c; ip_n_pkt = b.ip_n_pkt + 1; ipv6_n_pkt = b.ipv6_n_pkt + 1 })
          pkt
          (bit_or (shl (get_or pkt.data_ 4 0) 8) (get_or pkt.data_ 5 0))
unfolding receive is_for_me learn
receive_lem b c interface now pkt big version mine link known =
    let whole : ltb (length pkt.data_) 40 ≡ false = ground arith in
    rw (whole, version, mine, link, known) refl

module _ (src dst : List ℕ) where
  -- Where the parts of a sent packet stand for its receiver.
  record IsSent (p payload padding : List ℕ) : Type 0 where
    pub from : pkt_src p ≡ make ipv6 src
    pub to : pkt_dst p ≡ make ipv6 dst
    pub content : take (length payload) (drop 40 p) ≡ payload
    pub total : length p ≡ 40 + length payload + length padding

  packet_bytes-IsSent :
      (flow_label protocol : ℕ) (payload padding : List ℕ)
      → length src ≡ 16
      → length dst ≡ 16
      → IsSent (packet_bytes flow_label protocol src dst payload ++ padding) payload padding
  unfolding packet_bytes
  packet_bytes-IsSent flow_label protocol payload padding ls ld =
      let behind : List ℕ = payload ++ padding in
      let flat : (src ++ (dst ++ payload)) ++ padding ≡ src ++ (dst ++ behind) =
        append_assoc src (dst ++ payload) padding
        ∙ ap (λ t. src ++ t) (append_assoc dst payload padding) in
      record {
        from = ap (make ipv6) flat ∙ make-first src (dst ++ behind) ls;
        to =
            ap (λ t. make ipv6 (drop 16 t)) flat
            ∙ ap (make ipv6) (drop-first 16 src (dst ++ behind) ls)
            ∙ make-first dst behind ld;
        content =
            ap (λ (t : List ℕ). take (length payload) (drop 32 t))
              (flat ∙ sym (append_assoc src dst behind))
            ∙ ap (take (length payload))
                (drop-first 32 (src ++ dst) behind (omega (arith, length-append src dst)))
            ∙ take-append payload padding;
        total = omega (
          arith,
          length-append (src ++ (dst ++ payload)) padding,
          length-append src (dst ++ payload),
          length-append dst payload,
        );
      }

  -- The packet that a transport layer gets.
  abbrev pub ip_packet : AnyAddr → List ℕ → List ℕ → Packet
  ip_packet hw payload header = record {
    src_mac_addr = hw;
    src_addr = make ipv6 src;
    dst_addr = make ipv6 dst;
    data_ = payload;
    header = header;
    is_forwarded = false;
  }

  -- A payload that one host sends with `transmit_packet`, from an address of 16 bytes to another,
  -- reaches the protocol's layer of the host with the other address as it was, with both addresses
  -- and the 40 bytes of the header, if the link layer appends less than 8 bytes, that layer is
  -- registered, the payload has less than 65536 bytes and the NDP cache takes the sender in.
  pub transmit_packet-delivered :
      (b : Ipv6) (c : Cache) (dst_mac : Option AnyAddr) (dst_ip src_ip hw my_mac : AnyAddr)
      (flow_label protocol interface now : ℕ) (payload padding : List ℕ)
      → length src ≡ 16
      → length dst ≡ 16
      → get_exactly src_ip 16 ≡ some src
      → get_exactly dst_ip 16 ≡ some dst
      → b.myip ≡ make ipv6 dst
      → registered b.prot_map protocol ≡ true
      → length payload < 65536
      → length padding < 8
      → update_cache b.indp hw (make ipv6 src) interface false now ≡ some c
      → (q : Routed) × (transmit_packet flow_label dst_mac dst_ip src_ip protocol payload ≡ some q)
        × (receive b interface (from_link hw my_mac (q.payload ++ padding)) now
            ≡ some (
              record b {
                indp = c;
                ip_n_pkt = b.ip_n_pkt + 1;
                ipv6_n_pkt = b.ipv6_n_pkt + 1;
                ip_n_del = b.ip_n_del + 1;
              },
              queued protocol (ip_packet hw payload (take 40 (q.payload ++ padding))) ∷ [],
            ))
  unfolding transmit_packet packet_bytes
  transmit_packet-delivered b c dst_mac dst_ip src_ip hw my_mac flow_label protocol interface now
        payload padding ls ld hs hd my reg small few known =
      let size : ℕ = length payload in
      let sent : List ℕ = packet_bytes flow_label protocol src dst payload in
      let pkt = from_link hw my_mac (sent ++ padding) in
      let p : List ℕ = pkt.data_ in
      let v = packet_bytes-IsSent flow_label protocol payload padding ls ld in
      let mine : same_addr (pkt_dst p) b.myip ≡ true = ap₂ same_addr v.to my ∙ same_make ipv6 dst in
      let taken : update_cache b.indp hw (pkt_src p) interface false now ≡ some c =
        ap (λ t. update_cache b.indp hw t interface false now) v.from ∙ known in
      let s : Ipv6 = record b {
        indp = c;
        ip_n_pkt = b.ip_n_pkt + 1;
        ipv6_n_pkt = b.ipv6_n_pkt + 1;
      } in
      let result : AnyAddr → AnyAddr → List ℕ → Option (Ipv6 × List Event) = λ a d t. some (
        record s { ip_n_del = s.ip_n_del + 1 },
        queued protocol (record {
          src_mac_addr = hw;
          src_addr = a;
          dst_addr = d;
          data_ = t;
          header = take 40 p;
          is_forwarded = false;
        })
            ∷ [],
      ) in
      (
        record {
          dst_mac = dst_mac;
          ether_type = 0x86dd;
          dst_ip = dst_ip;
          src_mac = none;
          src_ip = src_ip;
          payload = sent;
        },
        rw (transmit_packet, hs, hd) refl,
        receive_lem b c interface now pkt (omega (arith, v.total)) refl mine refl taken
            ∙ ap (check_size s pkt) (be16_value-be16 size ∙ omega arith)
            ∙ check_size_lem s pkt size (omega (arith, v.total)) (omega (arith, v.total))
            ∙ accept_lem s pkt protocol 40 size reg (omega (arith, v.total))
            ∙ ap (λ a. result a (pkt_dst p) (take size (drop 40 p))) v.from
            ∙ ap (λ d. result (make ipv6 src) d (take size (drop 40 p))) v.to
            ∙ ap (result (make ipv6 src) (make ipv6 dst)) v.content,
      )
