-- ===== src/Tests/Routes.antt =====
-- The theorems on routes at a table of two networks.
use myip.Base.{
  arith, ℕ, ◌≡◌, refl, Option, none, some, List, [], ◌∷◌, get_or, get_elem?, ◌⊎◌, ◌==◌,
  if◌then◌else◌, true,
}
use myip.Addr.Defs.{AnyAddr, index, mac}
use myip.Router.{
  Route, find_route, find_from, applies, in_subnet, check_netmask, check_from, better,
}
use myip.Router.Choice.{Best, find_route-Best}
use myip.Router.Forward.{Queued, transmitted, forward, forward_by, send_on}
use myip.Router.Gateway.{forward-transmitted}
use myip.Tests.Data.{address, address-IsAddr, hardware}

abbrev net : ℕ → ℕ → Route
net priority interface = record {
  local_ip = address 1;
  network_address = address 0;
  ipv4_netmask = 255 ∷ 255 ∷ 255 ∷ 0 ∷ [];
  ipv6_prefix_length = 0;
  priority = priority;
  interface = interface;
  mac_lookup = 0;
  default_gateway = none;
}

abbrev routes : List Route
routes = net 10 0 ∷ net 20 1 ∷ []

find_route-Best_example :
    (o : Option Route) × (find_route (λ i. mac) (some mac) (address 9) routes ≡ some o)
    × Best (λ i. mac) (some mac) (address 9) routes none o
find_route-Best_example =
    find_route-Best (λ i. mac) (some mac) (address 9) routes (address-IsAddr 9)
      (address-IsAddr 0, (address-IsAddr 0, tt)) (omega arith, (omega arith, tt))

abbrev to_gateway : Route
to_gateway = record (net 10 0) { default_gateway = some (address 254) }

-- Only the gateway 10.0.0.254 answers.
abbrev answers : AnyAddr → Option (ℕ × AnyAddr)
answers ip = if get_or ip.addr 3 0 == 254 then some (0, hardware 254) else none

abbrev queued : Option AnyAddr → Queued
queued dst_mac = record {
  dst_mac = dst_mac;
  src_mac = none;
  dst_ip = address 9;
  src_ip = address 1;
}

chosen :
    (find_route (λ i. mac) none (address 9) (to_gateway ∷ []) ≡ some (some to_gateway))
    × (find_route (λ i. mac) none (address 1) (to_gateway ∷ []) ≡ some (some to_gateway))
unfolding find_route find_from applies in_subnet check_netmask check_from index better
chosen = (refl, refl)

forwarded :
    forward (λ i. mac) hardware (λ r ip. answers ip) routes (queued (some (hardware 9)))
    ≡ some (transmitted 1 (hardware 9) (hardware 1))
unfolding forward forward_by send_on find_route find_from applies in_subnet check_netmask check_from
    index better
forwarded = refl

forward-transmitted_example :
    (r : Route) × (n : ℕ) × (get_elem? routes n ≡ some r)
    × (applies (λ i. mac) (some mac) (address 9) r ≡ some true)
    × (1 ≡ r.interface)
    × (hardware 1 ≡ hardware 1)
    × ((some (hardware 9) ≡ some (hardware 9))
        ⊎ ((j : ℕ) × (answers (address 9) ≡ some (j, hardware 9))))
forward-transmitted_example =
    forward-transmitted (λ i. mac) hardware (λ r ip. answers ip) routes (queued (some (hardware 9)))
      1 (hardware 9) (hardware 1) (address-IsAddr 9) (address-IsAddr 0, (address-IsAddr 0, tt))
      (omega arith, (omega arith, tt)) forwarded
