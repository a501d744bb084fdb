-- ===== src/Router/Choice.antt =====
-- What `find_route` of router.cpp chooses.
use myip.Base.{
  ℕ, zero, suc, ◌+◌, ◌≤◌, ◌≡◌, ◌≢◌, get_elem?, refl, sym, ap, subst, ◌∙◌, true, false, Option, none,
  some, List, [], ◌∷◌, arith, Option-cases, Bool-cases, inl, inr, ◌⊎◌, All, ltb,
}
use myip.Addr.Defs.{
  AnyAddr, Family, IsAddr, ipv4, ipv6, mac, ax25, get_exactly, index, src_size, same_family,
}
use myip.Router.{
  Route, applies, find_from, find_route, better, in_subnet, check_netmask, check_from, check_prefix,
}

same_family-eq : (f g : Family) → same_family f g ≡ true → f ≡ g
same_family-eq f g h = ground arith

better_lem :
    (e : Route) (re : Option Route)
    → (b : Route) × (better e re ≡ some b)
      × (e.priority ≤ b.priority)
      × ((f : Route) → re ≡ some f → f.priority ≤ b.priority)
      × ((b ≡ e) ⊎ (re ≡ some b))
unfolding better
better_lem e none = (e, refl, omega arith, λ f h. ground arith, inl refl)
better_lem e (some re) = elim (Bool-cases (ltb re.priority e.priority)) [
  | inl h ↦ (e, ground arith, omega arith, λ f k. ground arith, inl refl)
  | inr h ↦ (re, ground arith, ground arith, λ f k. ground arith, inr refl)
]

module _ (phys_type : ℕ → Family) (mac_family : Option Family) (ip : AnyAddr) where
  -- What the result of the loop is to fulfil: the address of its network is of the family of the
  -- destination, which lies in that network, and its interface is of the family that was asked for, if
  -- one was.
  abbrev pub IsSuited : Option Family → Route → Type 0
  IsSuited none e = (e.network_address.af ≡ ip.af) × (in_subnet ip.af ip e ≡ some true)
  IsSuited (some f) e =
      (e.network_address.af ≡ ip.af)
      × (in_subnet ip.af ip e ≡ some true)
      × (phys_type e.interface ≡ f)

  applies-IsSuited :
      (f : Option Family) (e : Route) → applies phys_type f ip e ≡ some true → IsSuited f e
  unfolding applies
  applies-IsSuited none e h = elim (Bool-cases (same_family e.network_address.af ip.af)) [
    | inl s ↦
        let k : e.network_address.af ≡ ip.af = same_family-eq e.network_address.af ip.af s in
        (k, subst (λ t. in_subnet t ip e ≡ some true) k (ground arith))
    | inr s ↦ absurd (ground arith)
  ]
  applies-IsSuited (some f) e h = elim (Bool-cases (same_family e.network_address.af ip.af)) [
    | inl s ↦ elim (Bool-cases (same_family (phys_type e.interface) f)) [
      | inl t ↦
          let k : e.network_address.af ≡ ip.af = same_family-eq e.network_address.af ip.af s in
          (
            k,
            subst (λ t. in_subnet t ip e ≡ some true) k (ground arith),
            same_family-eq (phys_type e.interface) f t,
          )
      | inr t ↦ absurd (ground arith)
    ]
    | inr s ↦ absurd (ground arith)
  ]

  -- The result of the loop on a table, started with the best route `re`: without a result nothing
  -- applies; a result is a suited route of the table that applies or the first best one, and
  -- none that applies has a higher priority.
  abbrev pub Best : List Route → Option Route → Option Route → Type 0
  Best table re none = (re ≡ none) × All (λ e. applies phys_type mac_family ip e ≡ some false) table
  Best table re (some r) =
      (((i : ℕ) × (get_elem? table i ≡ some r)
          × (applies phys_type mac_family ip r ≡ some true)
          × IsSuited mac_family r)
        ⊎ (re ≡ some r))
      × All (λ e. applies phys_type mac_family ip e ≡ some true → e.priority ≤ r.priority) table
      × ((f : Route) → re ≡ some f → f.priority ≤ r.priority)

  skip :
      (e : Route) (table : List Route) (re o : Option Route)
      → applies phys_type mac_family ip e ≡ some false
      → Best table re o
      → Best (e ∷ table) re o
  skip e table re none h b = (b.0, (h, b.1))
  skip e table re (some r) h (inl (i, g, a, t), m, p) =
      (inl (suc i, g, a, t), (λ k. ground arith, m), p)
  skip e table re (some r) h (inr q, m, p) = (inr q, (λ k. ground arith, m), p)

  use_route :
      (e : Route) (table : List Route) (re o : Option Route)
      → applies phys_type mac_family ip e ≡ some true
      → Best table (better e re) o
      → Best (e ∷ table) re o
  use_route e table re none h b = let (c, q, l, f, z) = better_lem e re in absurd (ground arith)
  use_route e table re (some r) h (w, m, p) =
      let (c, q, l, f, z) = better_lem e re in
      let k : c.priority ≤ r.priority = p c q in
      (
        elim w [
          | inl (i, g, a, t) ↦ inl (suc i, g, a, t)
          | inr v ↦ elim z [
            | inl x ↦
                let y : e ≡ r = ground arith in
                let k = subst (λ t. applies phys_type mac_family ip t ≡ some true) y h in
                inl (0, ap some y, k, applies-IsSuited mac_family r k)
            | inr x ↦ inr (ground arith)
          ]
        ],
        (λ y. omega arith, m),
        λ g y. let t = f g y in omega arith,
      )

  find_from-Best :
      (table : List Route) (re o : Option Route)
      → find_from phys_type mac_family ip table re ≡ some o
      → Best table re o
  unfolding find_from
  find_from-Best [] re none h = (ground arith, tt)
  find_from-Best [] re (some r) h = (inr (ground arith), tt, λ f k. ground arith)
  find_from-Best (e ∷ table) re o h = elim (Option-cases (applies phys_type mac_family ip e)) [
    | inl n ↦ absurd (ground arith)
    | inr (true, n) ↦ use_route e table re o n (find_from-Best table (better e re) o (ground arith))
    | inr (false, n) ↦ skip e table re o n (find_from-Best table re o (ground arith))
  ]

  find_from-total :
      (table : List Route) (re : Option Route)
      → All (λ e. applies phys_type mac_family ip e ≢ none) table
      → find_from phys_type mac_family ip table re ≢ none
  unfolding find_from
  find_from-total [] re a h = ground arith
  find_from-total (e ∷ table) re a h = elim (Option-cases (applies phys_type mac_family ip e)) [
    | inl n ↦ a.0 n
    | inr (true, n) ↦ find_from-total table (better e re) a.1 (ground arith)
    | inr (false, n) ↦ find_from-total table re a.1 (ground arith)
  ]

  check_from-total :
      (n i : ℕ) (a b : AnyAddr) (netmask : List ℕ)
      → a.is_set ≡ true
      → b.is_set ≡ true
      → i + n ≤ a.addr_size
      → i + n ≤ b.addr_size
      → check_from n i a b netmask ≢ none
  unfolding check_from index
  check_from-total zero i a b netmask p q k l h = ground arith
  check_from-total (suc n) i a b netmask p q k l h =
      ground (arith, check_from-total n (i + 1) a b netmask)

  check_prefix-total :
      (a b : AnyAddr) (cidr : ℕ)
      → a.is_set ≡ true
      → b.is_set ≡ true
      → a.addr_size ≡ 16
      → b.addr_size ≡ 16
      → cidr ≤ 128
      → check_prefix a b cidr ≢ none
  unfolding check_prefix get_exactly
  check_prefix-total a b cidr p q k l few h =
      let fits : ltb 128 cidr ≡ false = ground arith in ground arith

  in_subnet-total :
      (f : Family) (e : Route)
      → f ≡ ip.af
      → f ≡ e.network_address.af
      → IsAddr ip
      → IsAddr e.network_address
      → e.ipv6_prefix_length ≤ 128
      → in_subnet f ip e ≢ none
  unfolding in_subnet check_netmask
  in_subnet-total ipv4 e g i p q few h =
      check_from-total 4 0 ip e.network_address e.ipv4_netmask p.present q.present
        (ground (arith, ap src_size g)) (ground (arith, ap src_size i)) h
  in_subnet-total ipv6 e g i p q few h =
      check_prefix-total ip e.network_address e.ipv6_prefix_length p.present q.present
        (p.sized ∙ ap src_size (sym g)) (q.sized ∙ ap src_size (sym i)) few h
  in_subnet-total mac e g i p q few h = ground arith
  in_subnet-total ax25 e g i p q few h = ground arith

  -- The conditions of a route can be tested for whole addresses.
  applies-total :
      (e : Route)
      → IsAddr ip
      → IsAddr e.network_address
      → e.ipv6_prefix_length ≤ 128
      → applies phys_type mac_family ip e ≢ none
  unfolding applies
  applies-total e p q few h = elim (Bool-cases (same_family e.network_address.af ip.af)) [
    | inl s ↦ ground (
      arith,
      in_subnet-total e.network_address.af e (same_family-eq e.network_address.af ip.af s) refl p q
          few,
    )
    | inr s ↦ ground arith
  ]

  All-total :
      (table : List Route)
      → IsAddr ip
      → All (λ e. IsAddr e.network_address) table
      → All (λ e. e.ipv6_prefix_length ≤ 128) table
      → All (λ e. applies phys_type mac_family ip e ≢ none) table
  All-total [] p q few = tt
  All-total (e ∷ table) p q few = (applies-total e p q.0 few.0, All-total table p q.1 few.1)

  -- With whole addresses and prefixes of at most 128 bits `find_route` returns, no route exactly if none
  -- applies, and otherwise a route of the table that applies and has a priority as high as any that
  -- applies. It is to a network that the destination lies in, and its interface is of the family that
  -- was asked for, if one was.
  pub find_route-Best :
      (table : List Route)
      → IsAddr ip
      → All (λ e. IsAddr e.network_address) table
      → All (λ e. e.ipv6_prefix_length ≤ 128) table
      → (o : Option Route) × (find_route phys_type mac_family ip table ≡ some o) × Best table none o
  unfolding find_route
  find_route-Best table p q few =
      elim (Option-cases (find_from phys_type mac_family ip table none)) [
        | inl n ↦ absurd (find_from-total table none (All-total table p q few) n)
        | inr (o, n) ↦ (o, n, find_from-Best table none o n)
      ]
