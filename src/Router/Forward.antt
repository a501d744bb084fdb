-- ===== src/Router/Forward.antt =====
-- The loop of `router::operator()` on one queued packet: which interface it goes to, and with which
-- hardware addresses.
use myip.Base.{ℕ, Option, none, some, List}
use myip.Addr.Defs.{AnyAddr, Family}
use myip.Router.{Route, find_route}

-- `queued_packet` of an IP packet; the payload is not read here.
pub record Queued : Type 0 where
  pub dst_mac : Option AnyAddr
  pub src_mac : Option AnyAddr
  pub dst_ip : AnyAddr
  pub src_ip : AnyAddr

-- What becomes of a packet: it is dropped, `value()` of an empty result throws, or it goes to an
-- interface with a destination and a source address.
pub data Forwarded : Type 0 where
  dropped throws : Forwarded
  transmitted : (interface : ℕ) → (dst_mac src_mac : AnyAddr) → Forwarded

abbrev pub family_of : Option AnyAddr → Option Family
family_of none = none
family_of (some a) = some a.af

-- `phys_type` and `get_local_mac` are those of an interface; `resolve_mac_by_addr` asks ARP or NDP,
-- which return no null interface.
module _ (phys_type : ℕ → Family) (get_local_mac : ℕ → AnyAddr)
    (resolve_mac_by_addr : Route → AnyAddr → Option (ℕ × AnyAddr)) where
  -- From the hardware address on: the interface is the destination's in both branches.
  unfoldable pub send_on : Route → AnyAddr → Forwarded
  send_on dst_route dst_mac =
      transmitted dst_route.interface dst_mac (get_local_mac dst_route.interface)

  -- The target of a packet without a hardware address. The last case reads the result of the first
  -- resolution, which is empty there.
  unfoldable pub find_target : Route → Route → AnyAddr → Forwarded
  find_target dst_route src_route dst_ip = elim (resolve_mac_by_addr dst_route dst_ip) [
    | some (interface, dst_mac) ↦ send_on dst_route dst_mac
    | none ↦ elim src_route.default_gateway [
      | none ↦ dropped
      | some gateway ↦ elim (resolve_mac_by_addr dst_route gateway) [
        | none ↦ dropped
        | some found ↦ throws
      ]
    ]
  ]

  unfoldable pub forward_by : Queued → Option Route → Option Route → Forwarded
  forward_by q none src_route = dropped
  forward_by q (some dst_route) none = dropped
  forward_by q (some dst_route) (some src_route) = elim q.dst_mac [
    | some dst_mac ↦ send_on dst_route dst_mac
    | none ↦ find_target dst_route src_route q.dst_ip
  ]

  -- `none`: an assertion fails in the choice of a route.
  unfoldable pub forward : List Route → Queued → Option Forwarded
  forward table q = elim (find_route phys_type (family_of q.dst_mac) q.dst_ip table) [
    | none ↦ none
    | some dst_route ↦ elim (find_route phys_type (family_of q.src_mac) q.src_ip table) [
      | none ↦ none
      | some src_route ↦ some (forward_by q dst_route src_route)
    ]
  ]
