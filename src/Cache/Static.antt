-- ===== src/Cache/Static.antt =====
-- What the cache of address_cache.cpp keeps.
use myip.Base.{
  ℕ, ◌≡◌, Bool, true, false, Option, none, some, List, [], ◌∷◌, ◌++◌, ◌==◌, if◌then◌else◌, arith,
  Option-cases, inl, inr,
}
use myip.Addr.Order.{memcmp_self}
use myip.Addr.Defs.{AnyAddr, precedes}
use myip.Cache.{
  Entry, Cache, equivalent, find, replace, stored, update_cache, query_cache, expired, kept,
  cache_cleaner,
}

module _ {ℓ} {V : Type ℓ} where
  find-append :
      (k j : AnyAddr) (v w : V) (m : List (AnyAddr × V))
      → find k m ≡ some v
      → find k (m ++ (j, w) ∷ []) ≡ some v
  unfolding find
  find-append k j v w [] h = ground arith
  find-append k j v w ((i, u) ∷ m) h = ground (arith, find-append k j v w m)

-- A replaced entry was another one, where the two differ.
find-replace :
    (k j : AnyAddr) (v w e : Entry) (m : List (AnyAddr × Entry))
    → find k m ≡ some v
    → v.ts ≡ 0
    → find j m ≡ some w
    → (w.ts == 0) ≡ false
    → find k (replace j e m) ≡ some v
unfolding find replace
find-replace k j v w e [] h z g n = ground arith
find-replace k j v w e ((i, u) ∷ m) h z g n = ground (arith, find-replace k j v w e m)

find-kept :
    (k : AnyAddr) (v : Entry) (now : ℕ) (m : List (AnyAddr × Entry))
    → find k m ≡ some v
    → expired now v ≡ false
    → find k (kept now m) ≡ some v
unfolding find kept
find-kept k v now [] h z = ground arith
find-kept k v now ((i, u) ∷ m) h z = ground (arith, find-kept k v now m)

-- The operations that change a cache, at their times.
pub data Op : Type 0 where
  put_at : (mac_addr ip : AnyAddr) → (interface : ℕ) → (static_entry : Bool) → (now : ℕ) → Op
  clean_at : (now : ℕ) → Op

unfoldable pub step : Op → Cache → Option Cache
step (put_at mac_addr ip interface static_entry now) c =
    update_cache c mac_addr ip interface static_entry now
step (clean_at now) c = some (cache_cleaner c now)

unfoldable pub run : List Op → Cache → Option Cache
run [] c = some c
run (o ∷ os) c = elim (step o c) [ none ↦ none | some d ↦ run os d ]

step-static :
    (o : Op) (c d : Cache) (ip : AnyAddr) (e : Entry)
    → find ip c.cache ≡ some e
    → e.ts ≡ 0
    → step o c ≡ some d
    → find ip d.cache ≡ some e
unfolding step update_cache cache_cleaner stored expired
step-static (put_at mac_addr j interface static_entry now) c d ip e h z s =
    elim (Option-cases (find j c.cache)) [
      | inl n ↦ ground (
        arith,
        find-append ip j e
            (record {
              ts = if static_entry then 0 else now;
              addr = mac_addr;
              interface = interface;
            })
            c.cache,
      )
      | inr (old, n) ↦ ground (
        arith,
        find-replace ip j e old
            (record {
              ts = if static_entry then 0 else now;
              addr = mac_addr;
              interface = interface;
            })
            c.cache,
      )
    ]
step-static (clean_at now) c d ip e h z s = ground (arith, find-kept ip e now c.cache)

-- A static entry is never changed and never forgotten: after any operations that all pass their
-- assertions it is what a query finds.
pub run-static :
    (os : List Op) (c d : Cache) (ip : AnyAddr) (e : Entry)
    → find ip c.cache ≡ some e
    → e.ts ≡ 0
    → run os c ≡ some d
    → query_cache d ip true ≡ some (e.interface, e.addr)
unfolding run query_cache
run-static [] c d ip e h z r = ground arith
run-static (o ∷ os) c d ip e h z r = elim (Option-cases (step o c)) [
  | inl n ↦ ground arith
  | inr (b, n) ↦ ground (arith, run-static os b d ip e, step-static o c b ip e)
]

pub equivalent_self : (k : AnyAddr) → equivalent k k ≡ true
unfolding equivalent precedes
equivalent_self k = ground (arith, memcmp_self k.addr_size k.addr)

module _ {ℓ} {V : Type ℓ} where
  pub find-append_new :
      (k : AnyAddr) (v : V) (m : List (AnyAddr × V))
      → find k m ≡ none
      → find k (m ++ (k, v) ∷ []) ≡ some v
  unfolding find
  find-append_new k v [] h = ground (arith, equivalent_self k)
  find-append_new k v ((i, u) ∷ m) h = ground (arith, find-append_new k v m)

  pub find-replace_self :
      (k : AnyAddr) (v w : V) (m : List (AnyAddr × V))
      → find k m ≡ some w
      → find k (replace k v m) ≡ some v
  unfolding find replace
  find-replace_self k v w [] h = ground arith
  find-replace_self k v w ((i, u) ∷ m) h = ground (arith, find-replace_self k v w m)

-- An address that has no static entry is found, after an update, at the place of the update.
pub update_cache-query :
    (c d : Cache) (mac_addr ip : AnyAddr) (interface now : ℕ)
    → query_cache c ip true ≡ none
    → update_cache c mac_addr ip interface false now ≡ some d
    → query_cache d ip false ≡ some (interface, mac_addr)
unfolding query_cache update_cache stored
update_cache-query c d mac_addr ip interface now q u =
    let new : Entry = record { ts = now; addr = mac_addr; interface = interface } in
    elim (Option-cases (find ip c.cache)) [
      | inl n ↦ ground (arith, find-append_new ip new c.cache)
      | inr (old, n) ↦ ground (arith, find-replace_self ip new old c.cache)
    ]
