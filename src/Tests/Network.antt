-- ===== src/Tests/Network.antt =====
-- Runs of the network layer: IPv4, ICMP and ARP.
use myip.Base.{
  ℕ, ◌+◌, arith, ◌≡◌, refl, true, none, some, List, [], ◌∷◌, ◌++◌, replicate, take, All, shr, u8,
}
use myip.Addr.Defs.{set, get_exactly, same_addr, memcmp}
use myip.Cache.{Cache, find, stored, update_cache}
use myip.Checksum.{ip_checksum}
use myip.Ipv4.{
  Ipv4, Packet, Routed, queued, forwarded, transmit_packet, receive, registered, check_ttl,
  check_sizes, accept, not_for_me, learn,
}
use myip.Ipv4.Delivery.{from_link, ip_packet, transmit_packet-queued}
use myip.Ipv4.Fate.{IsAllowed, n_forwarded, receive-accounted}
use myip.Icmp4.Ping.{IsAnswered, receive-ping}
use myip.Arp.{Work}
use myip.Arp.Resolve.{check_special_ip_addresses}
use myip.Arp.Exchange.{host, IsResolved, get_mac-IsResolved}
use myip.Tests.Data.{address, hardware}

abbrev empty_cache : Cache
empty_cache = record { cache = []; mac_cache = [] }

-- 10.0.0.n, with ICMP and UDP, that forwards.
abbrev station : ℕ → Ipv4
station n = record {
  myip = address n;
  forward = true;
  prot_map = 1 ∷ 17 ∷ [];
  iarp = empty_cache;
  ip_n_pkt = 0;
  ip_n_disc = 0;
  ip_n_del = 0;
  ipv4_n_pkt = 0;
  ipv4_not_me = 0;
  ipv4_ttl_ex = 0;
  ipv4_unk_prot = 0;
}

-- The cache after a packet from 10.0.0.n.
abbrev learned : ℕ → Cache
learned n = record {
  cache = (address n, record { ts = 7; addr = hardware n; interface = 0 }) ∷ [];
  mac_cache = (hardware n, 0) ∷ [];
}

abbrev payload : List ℕ
payload = 1 ∷ 2 ∷ 3 ∷ []

transmit_packet-queued_example :
    (q : Routed) × (transmit_packet (station 1) none (address 2) (address 1) 17 payload none
      ≡ some q)
    × (receive (station 2) 0 (from_link (hardware 1) (hardware 2) (q.payload ++ replicate 23 0)) 7
        ≡ some (
          record (station 2) { iarp = learned 1; ip_n_pkt = 1; ipv4_n_pkt = 1; ip_n_del = 1 },
          queued 17 (ip_packet 10 0 0 1 10 0 0 2 (hardware 1) payload (take 20 q.payload)) ∷ [],
        ))
unfolding update_cache stored find get_exactly registered set
transmit_packet-queued_example =
    transmit_packet-queued 10 0 0 1 10 0 0 2 (station 1) (station 2) (learned 1) none (address 2)
      (address 1) (hardware 1) (hardware 2) 17 0 7 payload (replicate 23 0) none refl refl refl refl
      refl refl (omega arith) refl

-- A packet for 10.0.0.9 with a time to live of 5, of the protocol 17, that 10.0.0.2 gets.
abbrev passing : Packet
passing = from_link (hardware 1) (hardware 2) (
    0x45 ∷ 0 ∷ 0 ∷ 21 ∷ 0 ∷ 0 ∷ 64 ∷ 0 ∷ 5 ∷ 17 ∷ 0 ∷ 0 ∷ 10 ∷ 0 ∷ 0 ∷ 1 ∷ 10 ∷ 0 ∷ 0 ∷ 9 ∷ 77 ∷ [])

abbrev passed : Routed
passed = record {
  dst_mac = none;
  ether_type = 0x0800;
  dst_ip = address 9;
  src_mac = some (hardware 1);
  src_ip = address 1;
  payload = passing.data_;
}

abbrev after_passing : Ipv4
after_passing = record (station 2) {
  iarp = learned 1;
  ip_n_pkt = 1;
  ipv4_n_pkt = 1;
  ipv4_not_me = 1;
}

receive-accounted_example :
    All (IsAllowed (station 2) passing) (forwarded passed ∷ [])
    × (after_passing.ip_n_pkt ≡ 1)
    × (after_passing.ip_n_disc + after_passing.ip_n_del + n_forwarded (forwarded passed ∷ []) ≡ 1)
unfolding receive learn update_cache stored find check_ttl check_sizes accept not_for_me registered
    same_addr memcmp set
receive-accounted_example =
    receive-accounted (station 2) after_passing 0 7 passing (forwarded passed ∷ []) (omega arith)
      refl

receive-ping_example :
    (checksum : ℕ) × (let answer =
        0 ∷ 0 ∷ shr checksum 8 ∷ u8 checksum ∷ 0 ∷ 1 ∷ 0 ∷ 2 ∷ 65 ∷ 66 ∷ [] in
      IsAnswered 10 0 0 1 10 0 0 2 0 11 22 5
        (0 ∷ 1 ∷ 0 ∷ 2 ∷ 65 ∷ 66 ∷ [])
        (station 1)
        (station 2)
        (hardware 1)
        (hardware 2)
        0
        0
        7
        1000
        []
        (0 ∷ [])
        answer
      × (ip_checksum answer 5 ≡ 0))
unfolding update_cache stored find registered set
receive-ping_example =
    receive-ping 10 0 0 1 10 0 0 2 0 11 22 5 (0 ∷ 1 ∷ 0 ∷ 2 ∷ 65 ∷ 66 ∷ []) (station 1) (station 2)
      (learned 2) (learned 1) (hardware 1) (hardware 2) 0 0 7 1000 [] (0 ∷ []) refl refl refl refl
      (omega arith) (omega arith) (omega arith)
      (
        omega arith,
        (
          omega arith,
          (omega arith, (omega arith, (omega arith, (omega arith, (omega arith, tt))))),
        ),
      )
      refl refl

abbrev broken : Packet
broken = record passing { data_ = 1 ∷ 2 ∷ 3 ∷ []; header = 0x45 ∷ 0 ∷ 0 ∷ 23 ∷ [] }

get_mac-IsResolved_example :
    (kept : Work) × IsResolved 2 0 0 0 0 1 2 0 0 0 0 2 10 0 0 1 10 0 0 2
      (host (2 ∷ 0 ∷ 0 ∷ 0 ∷ 0 ∷ 1 ∷ []) (10 ∷ 0 ∷ 0 ∷ 1 ∷ []) 0 empty_cache [])
      (host (2 ∷ 0 ∷ 0 ∷ 0 ∷ 0 ∷ 2 ∷ []) (10 ∷ 0 ∷ 0 ∷ 2 ∷ []) 0 empty_cache [])
      (host (2 ∷ 0 ∷ 0 ∷ 0 ∷ 0 ∷ 1 ∷ []) (10 ∷ 0 ∷ 0 ∷ 1 ∷ []) 0 (learned 2) kept)
      5000
      5100
      7
unfolding update_cache stored find set check_special_ip_addresses
get_mac-IsResolved_example =
    get_mac-IsResolved 2 0 0 0 0 1 2 0 0 0 0 2 10 0 0 1 10 0 0 2 0 0 5000 5100 7 empty_cache
      empty_cache (learned 2) [] [] refl refl refl refl refl refl
