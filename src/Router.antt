-- ===== src/Router.antt =====
-- `class router` of router.cpp: the table of the routes and the choice of one, with `check_subnet` of
-- net.cpp.
pub mod Choice
pub mod Forward
pub mod Gateway
use myip.Base.{
  ℕ, zero, suc, ◌+◌, ◌*◌, ◌-◌, ◌/◌, ◌%◌, ◌^◌, Bool, true, false, not, ◌&&◌, ◌||◌, Option, none,
  some, List, [], ◌∷◌, ◌++◌, ◌==◌, ltb, if◌then◌else◌, get_or, take, bit_and, bit_xor, shl,
}
use myip.Addr.Defs.{
  AnyAddr, Family, ipv4, ipv6, mac, ax25, same_family, compare_to, get_exactly, index, unset,
}

-- `ip_router_entry`. An interface, `iarp` and `indp` are their numbers; each member of the union
-- `mask` has a field of its own, and the family of the network says which one counts.
pub record Route : Type 0 where
  pub local_ip : AnyAddr
  pub network_address : AnyAddr
  pub ipv4_netmask : List ℕ
  pub ipv6_prefix_length : ℕ
  pub priority : ℕ
  pub interface : ℕ
  pub mac_lookup : ℕ
  pub default_gateway : Option AnyAddr

-- `std::equal(a, a + n, b)` on arrays of at least `n` bytes.
unfoldable pub equal : ℕ → List ℕ → List ℕ → Bool
equal zero xs ys = true
equal (suc n) [] ys = true
equal (suc n) (x ∷ xs) [] = true
equal (suc n) (x ∷ xs) (y ∷ ys) = (x == y) && equal n xs ys

-- `check_subnet` with a prefix, which is not negative: `none` where `get` finds another size than 16,
-- and for a prefix of more than 128 bits, where the comparison goes behind the arrays.
unfoldable pub check_prefix : AnyAddr → AnyAddr → ℕ → Option Bool
unfolding get_exactly equal
check_prefix addr network cidr = elim (get_exactly addr 16) [
  | none ↦ none
  | some addr_bytes ↦ elim (get_exactly network 16) [
    | none ↦ none
    | some network_bytes ↦
        (let n_bytes = cidr / 8 in
          let n_bits = cidr % 8 in
          let mask = shl 0xff (8 - n_bits) in
          if ltb 128 cidr
          then none
          else some (
              equal n_bytes addr_bytes network_bytes
              && ((n_bits == 0)
                  || (bit_and (get_or addr_bytes n_bytes 0) mask
                      == bit_and (get_or network_bytes n_bytes 0) mask))))
  ]
]

-- `check_subnet` with a netmask, from the byte `i` on, `n` bytes.
unfoldable pub check_from : ℕ → ℕ → AnyAddr → AnyAddr → List ℕ → Option Bool
unfolding index
check_from zero i addr network netmask = some true
check_from (suc n) i addr network netmask = elim (index addr i) [
  | none ↦ none
  | some a ↦ elim (index network i) [
    | none ↦ none
    | some b ↦ elim (bit_and a (get_or netmask i 0) == b) [
      | true ↦ check_from n (i + 1) addr network netmask
      | false ↦ some false
    ]
  ]
]

unfoldable pub check_netmask : AnyAddr → AnyAddr → List ℕ → Option Bool
unfolding check_from
check_netmask addr network netmask = check_from 4 0 addr network netmask

-- The choice by the family; a network of another family is never a route.
unfoldable pub in_subnet : Family → AnyAddr → Route → Option Bool
in_subnet ipv4 ip e = check_netmask ip e.network_address e.ipv4_netmask
in_subnet ipv6 ip e = check_prefix ip e.network_address e.ipv6_prefix_length
in_subnet mac ip e = some false
in_subnet ax25 ip e = some false

-- `re == nullptr || entry.priority > re->priority`
unfoldable pub better : Route → Option Route → Option Route
better e none = some e
better e (some re) = if ltb re.priority e.priority then some e else some re

-- `phys_type` gives the address family of an interface.
module _ (phys_type : ℕ → Family) where
  -- The conditions of the loop of `find_route` on one entry.
  unfoldable pub applies : Option Family → AnyAddr → Route → Option Bool
  applies mac_family ip e =
      if same_family e.network_address.af ip.af
      then elim mac_family [
        | none ↦ in_subnet e.network_address.af ip e
        | some f ↦
            if same_family (phys_type e.interface) f
            then in_subnet e.network_address.af ip e
            else some false
      ]
      else some false

  -- `find_route` from the entries that are left, with the best one so far; `none` is a failed
  -- assertion.
  unfoldable pub find_from :
      Option Family → AnyAddr → List Route → Option Route → Option (Option Route)
  find_from mac_family ip [] re = some re
  find_from mac_family ip (e ∷ table) re = elim (applies mac_family ip e) [
    | none ↦ none
    | some false ↦ find_from mac_family ip table re
    | some true ↦ find_from mac_family ip table (better e re)
  ]

  unfoldable pub find_route : Option Family → AnyAddr → List Route → Option (Option Route)
  find_route mac_family ip table = find_from mac_family ip table none

-- `add_router_ipv4`: a route to the same network through the same interface gets the new gateway and
-- ARP instance. `none`: an assertion fails.
unfoldable pub same_ipv4 : Route → Route → Option Bool
same_ipv4 re e = elim (compare_to re.network_address e.network_address) [
  | none ↦ none
  | some same ↦
      some (same && equal 4 re.ipv4_netmask e.ipv4_netmask && (e.interface == re.interface))
]

unfoldable pub merge_ipv4 : Route → List Route → Option (List Route)
merge_ipv4 re [] = some (re ∷ [])
merge_ipv4 re (e ∷ table) = elim (same_ipv4 re e) [
  | none ↦ none
  | some true ↦
      some (record e { mac_lookup = re.mac_lookup; default_gateway = re.default_gateway } ∷ table)
  | some false ↦ elim (merge_ipv4 re table) [ none ↦ none | some rest ↦ some (e ∷ rest) ]
]

unfoldable pub add_router_ipv4 : Route → List Route → Option (List Route)
add_router_ipv4 re table =
    if same_family re.network_address.af ipv4 then merge_ipv4 re table else none

-- `add_router_ipv6`: a second route to the same prefix changes nothing.
unfoldable pub merge_ipv6 : Route → List Route → Option (List Route)
merge_ipv6 re [] = some (re ∷ [])
merge_ipv6 re (e ∷ table) = elim (compare_to e.network_address re.network_address) [
  | none ↦ none
  | some same ↦ elim (same && (e.ipv6_prefix_length == re.ipv6_prefix_length)) [
    | true ↦ some (e ∷ table)
    | false ↦ elim (merge_ipv6 re table) [ none ↦ none | some rest ↦ some (e ∷ rest) ]
  ]
]

unfoldable pub add_router_ipv6 : Route → List Route → Option (List Route)
add_router_ipv6 re table =
    if same_family re.network_address.af ipv6 then merge_ipv6 re table else none
