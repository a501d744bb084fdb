-- ===== src/Ipv4.antt =====
-- `class ipv4` of ipv4.cpp with what it takes from network_layer.cpp and packet.h: the header of a
-- packet that is sent, and what becomes of one that is received.
pub mod Delivery
pub mod Fate
use myip.Base.{
  ℕ, ◌+◌, ◌-◌, ◌*◌, Bool, true, false, not, ◌&&◌, ◌||◌, Option, none, some, List, [], ◌∷◌, ◌++◌,
  ltb, leb, ◌==◌, if◌then◌else◌, length, get_or, take, drop, shr, shl, u8, bit_and, bit_or,
}
use myip.Addr.Defs.{AnyAddr, Family, ipv4, make, get_exactly, same_family, same_addr, index}
use myip.Checksum.{ip_checksum}
use myip.Cache.{Cache, update_cache}

-- `class packet`: the bytes and, for what IP delivers, the header that stood before them. The time of
-- reception and the log prefix are left out.
pub record Packet : Type 0 where
  pub src_mac_addr : AnyAddr
  pub src_addr : AnyAddr
  pub dst_addr : AnyAddr
  pub data_ : List ℕ
  pub header : List ℕ
  pub is_forwarded : Bool

-- The arguments of `router::route_packet`.
pub record Routed : Type 0 where
  pub dst_mac : Option AnyAddr
  pub ether_type : ℕ
  pub dst_ip : AnyAddr
  pub src_mac : Option AnyAddr
  pub src_ip : AnyAddr
  pub payload : List ℕ

-- What a packet causes: it goes to the layer of a protocol, or back to the router.
pub data Event : Type 0 where
  queued : (protocol : ℕ) → (p : Packet) → Event
  forwarded : (q : Routed) → Event

-- The object, with the protocols of `prot_map` and the counters that `operator()` changes.
pub record Ipv4 : Type 0 where
  pub myip : AnyAddr
  pub forward : Bool
  pub prot_map : List ℕ
  pub iarp : Cache
  pub ip_n_pkt : ℕ
  pub ip_n_disc : ℕ
  pub ip_n_del : ℕ
  pub ipv4_n_pkt : ℕ
  pub ipv4_not_me : ℕ
  pub ipv4_ttl_ex : ℕ
  pub ipv4_unk_prot : ℕ

unfoldable pub registered : List ℕ → ℕ → Bool
registered [] protocol = false
registered (x ∷ prot_map) protocol = x == protocol || registered prot_map protocol

-- `register_protocol`: a map keeps the entry that it has.
unfoldable pub register_protocol : Ipv4 → ℕ → Ipv4
unfolding registered
register_protocol s protocol = record s {
  prot_map = if registered s.prot_map protocol then s.prot_map else protocol ∷ s.prot_map;
}

-- The buffer `out` with a checksum.
unfoldable pub packet_with : ℕ → ℕ → List ℕ → List ℕ → List ℕ → ℕ → List ℕ
packet_with tos protocol src dst payload checksum =
    let out_size = 20 + length payload in
    0x45
    ∷ tos
    ∷ u8 (shr out_size 8)
    ∷ u8 out_size
    ∷ 0
    ∷ 0
    ∷ 0x40
    ∷ 0
    ∷ 64
    ∷ protocol
    ∷ shr checksum 8
    ∷ u8 checksum
    ∷ (src ++ (dst ++ payload))

unfoldable pub packet_bytes : ℕ → ℕ → List ℕ → List ℕ → List ℕ → List ℕ
unfolding packet_with
packet_bytes tos protocol src dst payload =
    packet_with tos protocol src dst payload
      (ip_checksum (packet_with tos protocol src dst payload 0) 10)

abbrev pub tos_of : Option (List ℕ) → ℕ
tos_of none = 0
tos_of (some header_template) = get_or header_template 1 0

-- From the choice of the source address on.
unfoldable pub transmit_from : Option AnyAddr → AnyAddr → AnyAddr → ℕ → List ℕ → ℕ → Option Routed
unfolding packet_bytes
transmit_from dst_mac dst_ip q_addr protocol payload tos = elim (get_exactly q_addr 4) [
  | none ↦ none
  | some src ↦ elim (get_exactly dst_ip 4) [
    | none ↦ none
    | some dst ↦ some (record {
      dst_mac = dst_mac;
      ether_type = 0x0800;
      dst_ip = dst_ip;
      src_mac = none;
      src_ip = q_addr;
      payload = packet_bytes tos protocol src dst payload;
    })
  ]
]

-- `transmit_packet`: what it hands to the router; `none` is a failed assertion.
unfoldable pub transmit_packet :
    Ipv4 → Option AnyAddr → AnyAddr → AnyAddr → ℕ → List ℕ → Option (List ℕ) → Option Routed
unfolding transmit_from
transmit_packet s dst_mac dst_ip src_ip protocol payload header_template =
    if same_family dst_ip.af ipv4 && same_family src_ip.af ipv4
    then transmit_from dst_mac dst_ip (if src_ip.is_set then src_ip else s.myip) protocol payload
        (tos_of header_template)
    else none

abbrev pub pkt_dst : List ℕ → AnyAddr
pkt_dst p = make ipv4 (drop 16 p)

abbrev pub pkt_src : List ℕ → AnyAddr
pkt_src p = make ipv4 (drop 12 p)

-- A packet that is for another host.
unfoldable pub not_for_me : Ipv4 → Packet → ℕ → Ipv4 × List Event
not_for_me s pkt size =
    let p = pkt.data_ in
    if s.forward && not (bit_and (get_or p 16 0) 0xf0 == 224)
    then (
      record s { ipv4_not_me = s.ipv4_not_me + 1 },
      forwarded (record {
        dst_mac = none;
        ether_type = 0x0800;
        dst_ip = pkt_dst p;
        src_mac = some pkt.src_mac_addr;
        src_ip = pkt_src p;
        payload = take size p;
      })
          ∷ [],
    )
    else (record s { ipv4_not_me = s.ipv4_not_me + 1; ip_n_disc = s.ip_n_disc + 1 }, [])

-- The packet that `operator()` queues for the layer of its protocol.
unfoldable pub delivered : Packet → ℕ → ℕ → Packet
delivered pkt header_size size = record {
  src_mac_addr = pkt.src_mac_addr;
  src_addr = pkt_src pkt.data_;
  dst_addr = pkt_dst pkt.data_;
  data_ = take (size - header_size) (drop header_size pkt.data_);
  header = take header_size pkt.data_;
  is_forwarded = false;
}

-- From the tests of the lengths on.
unfoldable pub accept : Ipv4 → Packet → ℕ → ℕ → ℕ → Ipv4 × List Event
unfolding not_for_me delivered registered
accept s pkt header_size size protocol =
    if ltb (length pkt.data_) size
    then (record s { ip_n_disc = s.ip_n_disc + 1 }, [])
    else (if ltb size header_size
        then (record s { ip_n_disc = s.ip_n_disc + 1 }, [])
        else (if not (registered s.prot_map protocol)
            then (record s { ip_n_disc = s.ip_n_disc + 1; ipv4_unk_prot = s.ipv4_unk_prot + 1 }, [])
            else (if not (same_addr (pkt_dst pkt.data_) s.myip) then not_for_me s pkt size else (
              record s { ip_n_del = s.ip_n_del + 1 },
              queued protocol (delivered pkt header_size size) ∷ [],
            ))))

-- The lengths and the protocol of the header.
unfoldable pub check_sizes : Ipv4 → Packet → Ipv4 × List Event
unfolding accept
check_sizes s pkt =
    let p = pkt.data_ in
    accept s pkt (bit_and (get_or p 0 0) 15 * 4) (bit_or (shl (get_or p 2 0) 8) (get_or p 3 0))
      (get_or p 9 0)

-- From the test of the time to live on.
unfoldable pub check_ttl : Ipv4 → Packet → Ipv4 × List Event
unfolding check_sizes
check_ttl s pkt =
    if leb (get_or pkt.data_ 8 0) 1
    then (record s { ip_n_disc = s.ip_n_disc + 1; ipv4_ttl_ex = s.ipv4_ttl_ex + 1 }, [])
    else check_sizes s pkt

-- The sender of a packet that did not come by way of the router goes into the ARP cache.
unfoldable pub learn : Ipv4 → ℕ → Packet → ℕ → Option Ipv4
learn s interface pkt now =
    if pkt.is_forwarded
    then some s
    else elim (update_cache s.iarp pkt.src_addr (pkt_src pkt.data_) interface false now) [
      | none ↦ none
      | some c ↦ some (record s { iarp = c })
    ]

-- `operator()` on one packet that an interface received; `none` is a failed assertion.
unfoldable pub receive : Ipv4 → ℕ → Packet → ℕ → Option (Ipv4 × List Event)
unfolding check_ttl learn
receive s interface pkt now =
    if ltb (length pkt.data_) 20
    then some (s, [])
    else (let s' = record s { ip_n_pkt = s.ip_n_pkt + 1; ipv4_n_pkt = s.ipv4_n_pkt + 1 } in
        if not (shr (get_or pkt.data_ 0 0) 4 == 4)
        then some (record s' { ip_n_disc = s.ip_n_disc + 1 }, [])
        else elim (learn s' interface pkt now) [
          | none ↦ none
          | some s'' ↦ some (check_ttl s'' pkt)
        ])
