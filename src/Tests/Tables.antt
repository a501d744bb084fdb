-- ===== src/Tests/Tables.antt =====
-- The theorems on addresses, the address cache and UDP at small tables.
use myip.Base.{ℕ, ◌≡◌, refl, true, false, Option, none, some, List, [], ◌∷◌, arith}
use myip.Base.Assoc.{insert, place}
use myip.Addr.Defs.{precedes, memcmp, get_exactly}
use myip.Checksum.{tcp_udp_checksum, pseudo_ipv4, ip_checksum, sum_loop, fold}
use myip.Udp.{
  Udp, dispatch, transmit_packet, Transmitted, sent, without_checksum, with_checksum, allocate_loop,
}
use myip.Udp.Delivery.{routed, dispatch-transmit_packet}
use myip.Cache.{
  Cache, Entry, equivalent, query_cache, update_cache, stored, kept, cache_cleaner, replace,
}
use myip.Cache
use myip.Cache.Static.{Op, put_at, clean_at, step, run, run-static}
use myip.Tests.Data.{address, hardware}

first : (precedes (address 1) (address 2) ≡ true) × (precedes (address 2) (address 3) ≡ true)
unfolding precedes memcmp
first = (refl, refl)

abbrev udp : Udp ℕ
udp = record { callbacks = (53, 7) ∷ []; allocated_ports = (1005, 1) ∷ [] }

abbrev sent_bytes : Transmitted → List ℕ
sent_bytes (sent out) = out
sent_bytes Transmitted.other_family = []
sent_bytes Transmitted.aborted = []

abbrev query : Transmitted
query = transmit_packet (address 1) 53 (address 2) 5000 (1 ∷ 2 ∷ 3 ∷ [])

query_sent : query ≡ sent (sent_bytes query)
unfolding transmit_packet without_checksum with_checksum tcp_udp_checksum pseudo_ipv4 ip_checksum
    sum_loop fold get_exactly
query_sent = refl

dispatch-transmit_packet_example :
    dispatch udp (sent_bytes query) ≡ routed udp 5000 53 (1 ∷ 2 ∷ 3 ∷ [])
dispatch-transmit_packet_example =
    dispatch-transmit_packet udp (address 1) (address 2) 53 5000 (1 ∷ 2 ∷ 3 ∷ []) (sent_bytes query)
      (omega arith) (omega arith) query_sent

abbrev draws : List ℕ
draws = 5 ∷ 32774 ∷ []

allocated :
    allocate_loop 10 udp draws 9
    ≡ (some 1006, record udp { allocated_ports = (1005, 1) ∷ (1006, 9) ∷ [] })
unfolding allocate_loop insert place
allocated = refl

abbrev gateway : Entry
gateway = record { ts = 0; addr = hardware 1; interface = 0 }

abbrev cache : Cache
cache = record { cache = (address 1, gateway) ∷ []; mac_cache = (hardware 1, 0) ∷ [] }

abbrev ops : List Op
ops =
    put_at (hardware 9) (address 1) 1 false 5
    ∷ put_at (hardware 2) (address 2) 0 false 6
    ∷ clean_at 9000000000
    ∷ []

known : Cache.find (address 1) cache.cache ≡ some gateway
unfolding Cache.find equivalent precedes memcmp
known = refl

abbrev cache_or : Option Cache → Cache
cache_or none = cache
cache_or (some c) = c

ran : run ops cache ≡ some (cache_or (run ops cache))
unfolding run step update_cache stored cache_cleaner
ran = refl

run-static_example : query_cache (cache_or (run ops cache)) (address 1) true ≡ some (0, hardware 1)
run-static_example =
    run-static ops cache (cache_or (run ops cache)) (address 1) gateway known refl ran

unknown :
    (query_cache cache (address 2) true ≡ none)
    × (update_cache cache (hardware 2) (address 2) 0 false 6
        ≡ some (stored cache (hardware 2) (address 2) 0 false 6))
unfolding query_cache Cache.find equivalent precedes memcmp update_cache
unknown = (refl, refl)
