-- ===== src/Tests/Messages.antt =====
-- Runs of IPv6, of the encoding of SNMP, and of AX.25 over KISS.
use myip.Base.{
  true, false, ℕ, ◌≤◌, ◌<◌, All, map, ◌≡◌, refl, none, some, List, [], ◌∷◌, ◌++◌, arith, replicate,
  length, take,
}
use myip.Addr.Defs.{ipv6, make, set, get_exactly}
use myip.Cache.{Cache, find, stored, update_cache}
use myip.Ipv4.{Routed, queued, registered}
use myip.Ipv4.Delivery.{from_link}
use myip.Ipv6.{Ipv6, transmit_packet, receive}
use myip.Ipv6.Delivery.{ip_packet, transmit_packet-delivered}
use myip.Snmp.{Oid, get_oid, oid_bytes}
use myip.Snmp.Numbers.{get_oid-oid_bytes}
use myip.Ax25.{Address, named, parse, generate_packet, generate_address, repeater_bytes}
use myip.Ax25.RoundTrip.{IsCallSign, frame}
use myip.Kiss.{reading, handle_kiss, transmit_ax25}
use myip.Kiss.Link.{handle_kiss-transmit_ax25}
use myip.Checksum.Verify.{IsByte}
use myip.Tests.Data.{hardware}

-- The bytes of fe80::n.
abbrev local : ℕ → List ℕ
local n = 0xfe ∷ 0x80 ∷ (replicate 13 0 ++ n ∷ [])

abbrev station : Ipv6
station = record {
  myip = make ipv6 (local 2);
  prot_map = 0x3a ∷ 17 ∷ [];
  indp = record { cache = []; mac_cache = [] };
  ip_n_pkt = 0;
  ip_n_disc = 0;
  ip_n_del = 0;
  ipv6_n_pkt = 0;
  ipv6_not_me = 0;
  ipv6_unk_prot = 0;
}

abbrev learned : Cache
learned = record {
  cache = (make ipv6 (local 1), record { ts = 7; addr = hardware 1; interface = 0 }) ∷ [];
  mac_cache = (hardware 1, 0) ∷ [];
}

transmit_packet-delivered_example :
    (q : Routed) × (transmit_packet 99 none
        (make ipv6 (local 2))
        (make ipv6 (local 1))
        17
        (1 ∷ 2 ∷ [])
      ≡ some q)
    × (receive station 0 (from_link (hardware 1) (hardware 2) (q.payload ++ 0 ∷ 0 ∷ [])) 7
        ≡ some (
          record station { indp = learned; ip_n_pkt = 1; ipv6_n_pkt = 1; ip_n_del = 1 },
          queued 17 (
                ip_packet
                  (local 1)
                  (local 2)
                  (hardware 1)
                  (1 ∷ 2 ∷ [])
                  (take 40 (q.payload ++ 0 ∷ 0 ∷ [])))
              ∷ [],
        ))
unfolding update_cache stored find get_exactly registered set
transmit_packet-delivered_example =
    transmit_packet-delivered (local 1) (local 2) station learned none (make ipv6 (local 2))
      (make ipv6 (local 1)) (hardware 1) (hardware 2) 99 17 0 7 (1 ∷ 2 ∷ []) (0 ∷ 0 ∷ []) refl refl
      refl refl refl refl (omega arith) (omega arith) refl

-- 1.3.6.1.4.1.57850
abbrev enterprise : Oid
enterprise = record { starts = true; arcs = 6 ∷ 1 ∷ 4 ∷ 1 ∷ 57850 ∷ [] }

get_oid-oid_bytes_example : get_oid (oid_bytes enterprise) ≡ some enterprise
get_oid-oid_bytes_example =
    get_oid-oid_bytes 6 (1 ∷ 4 ∷ 1 ∷ 57850 ∷ [])
      (omega arith, (omega arith, (omega arith, (omega arith, (omega arith, tt)))))

-- PD9FVH-1, IDENT and the repeater RELAY-2.
abbrev sender : Address
sender = named (80 ∷ 68 ∷ 57 ∷ 70 ∷ 86 ∷ 72 ∷ []) 1 false false

abbrev beacon_target : Address
beacon_target = named (73 ∷ 68 ∷ 69 ∷ 78 ∷ 84 ∷ []) 0 true false

sender-IsCallSign : IsCallSign sender
sender-IsCallSign = (
  omega arith,
  omega arith,
  refl,
  (
    (omega arith, omega arith, refl),
    (
      (omega arith, omega arith, refl),
      (
        (omega arith, omega arith, refl),
        (
          (omega arith, omega arith, refl),
          ((omega arith, omega arith, refl), ((omega arith, omega arith, refl), tt)),
        ),
      ),
    ),
  ),
)

beacon_target-IsCallSign : IsCallSign beacon_target
beacon_target-IsCallSign = (
  omega arith,
  omega arith,
  refl,
  (
    (omega arith, omega arith, refl),
    (
      (omega arith, omega arith, refl),
      (
        (omega arith, omega arith, refl),
        ((omega arith, omega arith, refl), ((omega arith, omega arith, refl), tt)),
      ),
    ),
  ),
)

abbrev repeater : Address
repeater = named (82 ∷ 69 ∷ 76 ∷ 65 ∷ 89 ∷ []) 2 true true

repeater-IsCallSign : IsCallSign repeater
repeater-IsCallSign = (
  omega arith,
  omega arith,
  refl,
  (
    (omega arith, omega arith, refl),
    (
      (omega arith, omega arith, refl),
      (
        (omega arith, omega arith, refl),
        ((omega arith, omega arith, refl), ((omega arith, omega arith, refl), tt)),
      ),
    ),
  ),
)

-- A beacon whose text has both bytes that are escaped.
beacon-short :
    length (generate_packet (frame beacon_target sender (repeater ∷ []) 3 0xf0 (0xc0 ∷ 0xdb ∷ [])))
    ≤ 255
unfolding generate_packet generate_address repeater_bytes
beacon-short = omega arith

handle_kiss-transmit_ax25_example :
    let a = frame beacon_target sender (repeater ∷ []) 3 0xf0 (0xc0 ∷ 0xdb ∷ []) in
    (map parse (handle_kiss (reading []) (transmit_ax25 a ++ 0xc0 ∷ [])).0
      ≡ some a ∷ map parse (handle_kiss (reading []) (0xc0 ∷ [])).0)
    × ((handle_kiss (reading []) (transmit_ax25 a ++ 0xc0 ∷ [])).1
        ≡ (handle_kiss (reading []) (0xc0 ∷ [])).1)
handle_kiss-transmit_ax25_example =
    handle_kiss-transmit_ax25 beacon_target sender (repeater ∷ []) 3 0xf0 (0xc0 ∷ 0xdb ∷ [])
      (0xc0 ∷ []) beacon_target-IsCallSign sender-IsCallSign (repeater-IsCallSign, tt) (omega arith)
      (refl, refl) beacon-short

local-bytes : (n : ℕ) → n < 256 → All IsByte (local n)
local-bytes n h = (
  omega arith,
  (
    omega arith,
    (
      omega arith,
      (
        omega arith,
        (
          omega arith,
          (
            omega arith,
            (
              omega arith,
              (
                omega arith,
                (
                  omega arith,
                  (
                    omega arith,
                    (
                      omega arith,
                      (omega arith, (omega arith, (omega arith, (omega arith, (h, tt))))),
                    ),
                  ),
                ),
              ),
            ),
          ),
        ),
      ),
    ),
  ),
)
