-- ===== src/Arp/Exchange.antt =====
-- One host asks for the hardware address of another by arp.cpp, and gets it.
use myip.Base.{
  ℕ, ◌≡◌, refl, Bool, true, false, Option, none, some, List, [], ◌∷◌, ◌++◌, ◌==◌, leb, arith,
  replicate, sub64,
}
use myip.Addr.Defs.{AnyAddr, ipv4, mac, make, set, get_exactly, index, memcmp, is_eq}
use myip.Addr.Order.{same_make}
use myip.Cache.{Cache, find, replace, update_cache, query_cache}
use myip.Cache.Static.{find-append_new, find-replace_self, update_cache-query}
use myip.Arp.{
  Work, Arp, receive, mismatch, is_gratuitous, dispatch, reply_to, own_address, swap_bytes,
  on_reply,
}
use myip.Arp.Resolve.{
  broadcast, check_special_ip_addresses, get_mac, wait_pass, send_request, request_bytes, insert,
  erase, waiting, resolved,
}

-- A host with a hardware address and an IP address.
abbrev pub host : List ℕ → List ℕ → ℕ → Cache → Work → Arp
host hw ip interface cache work = record {
  my_mac = make mac hw;
  my_ip = make ipv4 ip;
  interface = interface;
  cache = cache;
  work = work;
}

query_cache-none :
    (c : Cache) (ip : AnyAddr) → find ip c.cache ≡ none → query_cache c ip false ≡ none
unfolding query_cache
query_cache-none c ip h = rw (query_cache, h) refl

query_cache-static :
    (c : Cache) (ip : AnyAddr) → find ip c.cache ≡ none → query_cache c ip true ≡ none
unfolding query_cache
query_cache-static c ip h = rw (query_cache, h) refl

differs :
    (x : ℕ) (xs ys : List ℕ) → (x == 255) ≡ false → is_eq (memcmp 6 (x ∷ xs) (255 ∷ ys)) ≡ false
unfolding memcmp
differs x xs ys h = ground arith

module _ (m0 m1 m2 m3 m4 m5 n0 n1 n2 n3 n4 n5 s0 s1 s2 s3 d0 d1 d2 d3 : ℕ) where
  abbrev hw_a : List ℕ
  hw_a = m0 ∷ m1 ∷ m2 ∷ m3 ∷ m4 ∷ m5 ∷ []

  abbrev hw_b : List ℕ
  hw_b = n0 ∷ n1 ∷ n2 ∷ n3 ∷ n4 ∷ n5 ∷ []

  abbrev ip_a : List ℕ
  ip_a = s0 ∷ s1 ∷ s2 ∷ s3 ∷ []

  abbrev ip_b : List ℕ
  ip_b = d0 ∷ d1 ∷ d2 ∷ d3 ∷ []

  abbrev pub wanted : AnyAddr
  wanted = make ipv4 ip_b

  -- The packet that asks, and the one that answers.
  abbrev pub request : List ℕ
  request = 0 ∷ 1 ∷ 8 ∷ 0 ∷ 6 ∷ 4 ∷ 0 ∷ 1 ∷ (hw_a ++ (ip_a ++ (replicate 6 0 ++ ip_b)))

  abbrev pub reply : List ℕ
  reply = 0 ∷ 1 ∷ 8 ∷ 0 ∷ 6 ∷ 4 ∷ 0 ∷ 2 ∷ (hw_b ++ (ip_b ++ (hw_a ++ ip_a)))

  get_mac-asks :
      (interface : ℕ) (cache : Cache) (work : Work)
      → check_special_ip_addresses d0 d1 d2 d3 mac ≡ none
      → find wanted cache.cache ≡ none
      → get_mac (host hw_a ip_a interface cache work) wanted mac
        ≡ waiting
            (host hw_a ip_a interface cache (insert wanted work))
            false
            (record { dst_mac = broadcast; src_mac = make mac hw_a; bytes = request } ∷ [])
  unfolding get_mac index set send_request request_bytes get_exactly
  get_mac-asks interface cache work special unknown =
      let q : query_cache cache wanted false ≡ none = query_cache-none cache wanted unknown in
      rw (get_mac, special, q) refl

  receive-request :
      (interface now : ℕ) (cache : Cache) (work : Work) (src : AnyAddr)
      → receive (host hw_b ip_b interface cache work) src request now
        ≡ some (
          host hw_b ip_b interface cache work,
          record { dst_mac = src; src_mac = make mac hw_b; bytes = reply } ∷ [],
        )
  unfolding receive mismatch is_gratuitous memcmp dispatch reply_to own_address swap_bytes
      get_exactly set
  receive-request interface now cache work src = rw (same_make ipv4 ip_b) refl

  not_gratuitous : (m0 == 255) ≡ false → is_gratuitous reply 2 6 4 ≡ false
  unfolding is_gratuitous
  not_gratuitous h =
      let first : is_eq (memcmp 6 (hw_a ++ ip_a) (replicate 6 255)) ≡ false = differs m0 _ _ h in
      rw first refl

  on_reply_lem :
      (a : Arp) (old : Option (Option AnyAddr))
      → find wanted a.work ≡ some old
      → on_reply a reply 0x0800 6
        ≡ some (record a { work = replace wanted (some (some (make mac hw_b))) a.work })
  unfolding on_reply set
  on_reply_lem a old h = rw (on_reply, h) refl

  receive-reply :
      (interface now : ℕ) (cache : Cache) (work : Work) (src : AnyAddr)
      (old : Option (Option AnyAddr))
      → (m0 == 255) ≡ false
      → find wanted work ≡ some old
      → receive (host hw_a ip_a interface cache work) src reply now
        ≡ some
            (host hw_a ip_a interface cache (replace wanted (some (some (make mac hw_b))) work), [])
  unfolding receive mismatch dispatch set
  receive-reply interface now cache work src old unicast h =
      let a = host hw_a ip_a interface cache work in
      rw (receive, not_gratuitous unicast) (rw (on_reply_lem a old h) refl)

  wait_pass-resolved :
      (interface start_ts now_ms now_us : ℕ) (cache c : Cache) (work : Work) (repeated : Bool)
      → find wanted work ≡ some (some (some (make mac hw_b)))
      → leb 1000 (sub64 now_ms start_ts) ≡ false
      → update_cache cache (make mac hw_b) wanted interface false now_us ≡ some c
      → wait_pass (host hw_a ip_a interface cache work) wanted mac start_ts repeated now_ms now_us
        ≡ resolved
            (host hw_a ip_a interface c (erase wanted work))
            (some (interface, make mac hw_b))
  unfolding wait_pass
  wait_pass-resolved interface start_ts now_ms now_us cache c work repeated h early learned =
      rw (early, h, learned) refl

  insert-found :
      (work : Work) → find wanted work ≡ none → find wanted (insert wanted work) ≡ some none
  unfolding insert
  insert-found work h = rw (insert, h) (find-append_new wanted none work h)

  -- What happens to a resolution on a host `a`, from the call of `get_mac` to a pass of its loop.
  pub record IsResolved (a b c : Arp) (start_ts now_ms now_us : ℕ) : Type 0 where
    pub asking : Arp
    pub answered : Arp
    pub asks :
        get_mac a wanted mac
        ≡ waiting asking false
            (record { dst_mac = broadcast; src_mac = a.my_mac; bytes = request } ∷ [])
    pub answers :
        receive b a.my_mac request now_us
        ≡ some (b, record { dst_mac = a.my_mac; src_mac = b.my_mac; bytes = reply } ∷ [])
    pub hears : receive asking b.my_mac reply now_us ≡ some (answered, [])
    pub resolves :
        wait_pass answered wanted mac start_ts false now_ms now_us
        ≡ resolved c (some (a.interface, b.my_mac))
    pub keeps : query_cache c.cache wanted false ≡ some (a.interface, b.my_mac)

  -- A host on an Ethernet asks for the address of a host that it does not know and that no other
  -- thread asks for, an address that is not special; its own hardware address does not begin with
  -- 255. The host that has the address answers the request, the answer is stored for the thread that
  -- waits, its pass of the loop less than 1000 ms after the start returns the hardware address of
  -- that host, and the cache, if its assertions hold, has it from then on.
  pub get_mac-IsResolved :
      (interface interface' start_ts now_ms now_us : ℕ) (cache cache' c : Cache) (work work' : Work)
      → (m0 == 255) ≡ false
      → check_special_ip_addresses d0 d1 d2 d3 mac ≡ none
      → find wanted cache.cache ≡ none
      → find wanted work ≡ none
      → leb 1000 (sub64 now_ms start_ts) ≡ false
      → update_cache cache (make mac hw_b) wanted interface false now_us ≡ some c
      → (kept : Work) × IsResolved
          (host hw_a ip_a interface cache work)
          (host hw_b ip_b interface' cache' work')
          (host hw_a ip_a interface c kept)
          start_ts
          now_ms
          now_us
  get_mac-IsResolved interface interface' start_ts now_ms now_us cache cache' c work work' unicast
        special unknown idle early learned =
      let found = insert-found work idle in
      let after : Work = replace wanted (some (some (make mac hw_b))) (insert wanted work) in
      let there : find wanted after ≡ some (some (some (make mac hw_b))) =
        find-replace_self wanted (some (some (make mac hw_b))) none (insert wanted work) found in
      (
        erase wanted after,
        record {
          asking = host hw_a ip_a interface cache (insert wanted work);
          answered = host hw_a ip_a interface cache after;
          asks = get_mac-asks interface cache work special unknown;
          answers = receive-request interface' now_us cache' work' (make mac hw_a);
          hears =
              receive-reply interface now_us cache (insert wanted work) (make mac hw_b) none unicast
                found;
          resolves =
              wait_pass-resolved interface start_ts now_ms now_us cache c after false there early
                learned;
          keeps =
              update_cache-query cache c (make mac hw_b) wanted interface now_us
                (query_cache-static cache wanted unknown) learned;
        },
      )
