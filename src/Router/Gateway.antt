-- ===== src/Router/Gateway.antt =====
-- Which packets `router::operator()` sends, and what becomes of those for a gateway.
use myip.Base.{
  ◌≤◌, ℕ, ◌≡◌, ◌≢◌, sym, ap, ◌∙◌, subst, ◌⊎◌, inl, inr, refl, true, Option, none, some, List,
  Option-cases, arith, get_elem?, All,
}
use myip.Addr.Defs.{AnyAddr, Family, IsAddr}
use myip.Router.{Route, find_route, applies}
use myip.Router.Choice.{find_route-Best, Best}
use myip.Router.Forward.{
  Queued, dropped, throws, transmitted, family_of, send_on, find_target, forward_by, forward,
}

module _ (phys_type : ℕ → Family) (get_local_mac : ℕ → AnyAddr)
    (resolve : Route → AnyAddr → Option (ℕ × AnyAddr)) where
  -- Whom a route's packet may reach.
  Reached : Queued → Route → ℕ → AnyAddr → AnyAddr → Type 0
  Reached q r i to from =
      (i ≡ r.interface)
      × (from ≡ get_local_mac i)
      × ((q.dst_mac ≡ some to) ⊎ ((j : ℕ) × (resolve r q.dst_ip ≡ some (j, to))))

  reached :
      (q : Queued) (r : Route) (m : AnyAddr)
      → (q.dst_mac ≡ some m) ⊎ ((j : ℕ) × (resolve r q.dst_ip ≡ some (j, m)))
      → (i : ℕ) (to from : AnyAddr)
      → send_on phys_type get_local_mac resolve r m ≡ transmitted i to from
      → Reached q r i to from
  unfolding Reached send_on
  reached q r m h i to from e =
      let ei : r.interface ≡ i = ground arith in
      let em : m ≡ to = ground arith in
      let ef : get_local_mac r.interface ≡ from = ground arith in
      (
        sym ei,
        sym ef ∙ ap get_local_mac ei,
        elim h [
          | inl a ↦ inl (a ∙ ap some em)
          | inr (j, a) ↦ inr (j, a ∙ ap (λ t. some (j, t)) em)
        ],
      )

  nothing_sent :
      (t r : Route) (i : ℕ) (to from : AnyAddr)
      → elim t.default_gateway [
        | none ↦ dropped
        | some gateway ↦ elim (resolve r gateway) [ none ↦ dropped | some found ↦ throws ]
      ]
        ≢ transmitted i to from
  nothing_sent t r i to from e = ground arith

  chosen_is_there :
      (table : List Route) (o : Option Route) (r : Route) (f : Option Family) (ip : AnyAddr)
      → o ≡ some r
      → Best phys_type f ip table none o
      → (n : ℕ) × (get_elem? table n ≡ some r) × (applies phys_type f ip r ≡ some true)
  chosen_is_there table none r f ip g b = absurd (ground arith)
  chosen_is_there table (some x) r f ip g (inl (n, at, yes', suited), m, _) =
      let e : x ≡ r = ground arith in
      (n, at ∙ ap some e, subst (λ t. applies phys_type f ip t ≡ some true) e yes')
  chosen_is_there table (some x) r f ip g (inr no', m, _) = absurd (ground arith)

  sent_by_route :
      (q : Queued) (d s : Option Route) (i : ℕ) (to from : AnyAddr)
      → forward_by phys_type get_local_mac resolve q d s ≡ transmitted i to from
      → (r : Route) × (d ≡ some r) × Reached q r i to from
  unfolding forward_by find_target
  sent_by_route q none s i to from e = absurd (ground arith)
  sent_by_route q (some r) none i to from e = absurd (ground arith)
  sent_by_route q (some r) (some t) i to from e = elim (Option-cases q.dst_mac) [
    | inl h ↦ elim (Option-cases (resolve r q.dst_ip)) [
      | inl n ↦ absurd (ground (arith, nothing_sent t r i to from))
      | inr (f, n) ↦ (r, refl, reached q r f.1 (inr (f.0, n)) i to from (ground arith))
    ]
    | inr (m, h) ↦ (r, refl, reached q r m (inl h) i to from (ground arith))
  ]

  -- With prefixes of at most 128 bits, a packet that is sent goes to the interface of a route of the table that applies to its
  -- destination, from the hardware address of that interface, and to the hardware address that it came
  -- with, or that was found for its destination itself.
  pub forward-transmitted :
      (table : List Route) (q : Queued) (i : ℕ) (to from : AnyAddr)
      → IsAddr q.dst_ip
      → All (λ e. IsAddr e.network_address) table
      → All (λ e. e.ipv6_prefix_length ≤ 128) table
      → forward phys_type get_local_mac resolve table q ≡ some (transmitted i to from)
      → (r : Route) × (n : ℕ) × (get_elem? table n ≡ some r)
        × (applies phys_type (family_of q.dst_mac) q.dst_ip r ≡ some true)
        × (i ≡ r.interface)
        × (from ≡ get_local_mac i)
        × ((q.dst_mac ≡ some to) ⊎ ((j : ℕ) × (resolve r q.dst_ip ≡ some (j, to))))
  unfolding forward Reached
  forward-transmitted table q i to from p w few e =
      let (o, h, b) = find_route-Best phys_type (family_of q.dst_mac) q.dst_ip table p w few in
      elim (Option-cases (find_route phys_type (family_of q.src_mac) q.src_ip table)) [
        | inl n ↦ absurd (ground arith)
        | inr (s, n) ↦
            let (r, g, k) = sent_by_route q o s i to from (ground arith) in
            let (m, at, ap') = chosen_is_there table o r (family_of q.dst_mac) q.dst_ip g b in
            (r, m, at, ap', k.0, k.1, k.2)
      ]

  -- A packet without a hardware address, whose own destination is not resolved but the gateway of
  -- the source's route is, is not sent to the gateway: the router throws.
  gateway_throws :
      (table : List Route) (q : Queued) (d s : Route) (gateway : AnyAddr) (found : ℕ × AnyAddr)
      → q.dst_mac ≡ none
      → find_route phys_type none q.dst_ip table ≡ some (some d)
      → find_route phys_type (family_of q.src_mac) q.src_ip table ≡ some (some s)
      → resolve d q.dst_ip ≡ none
      → s.default_gateway ≡ some gateway
      → resolve d gateway ≡ some found
      → forward phys_type get_local_mac resolve table q ≡ some throws
  unfolding forward forward_by find_target
  gateway_throws table q d s gateway found e dr sr n g f = ground arith
