-- ===== src/Cache.antt =====
-- `class address_cache` of address_cache.cpp: which hardware address an IP address has. An address is
-- the key of a `std::map`, so two keys are the same if neither precedes the other; the order of the
-- entries shows in no operation here, and a new one is put last.
pub mod Static
use myip.Base.{
  ℕ, ◌≡◌, Bool, true, false, not, ◌&&◌, ◌||◌, Option, none, some, List, [], ◌∷◌, ◌++◌, ◌==◌, leb,
  if◌then◌else◌, sub64,
}
use myip.Addr.Defs.{AnyAddr, Family, ipv4, ipv6, mac, ax25, same_family, precedes}

-- `address_entry_t`; the time 0 marks a static entry. An interface is its number.
pub record Entry : Type 0 where
  pub ts : ℕ
  pub addr : AnyAddr
  pub interface : ℕ

pub record Cache : Type 0 where
  pub cache : List (AnyAddr × Entry)
  pub mac_cache : List (AnyAddr × ℕ)

unfoldable pub equivalent : AnyAddr → AnyAddr → Bool
unfolding precedes
equivalent a b = not (precedes a b) && not (precedes b a)

module _ {ℓ} {V : Type ℓ} where
  unfoldable pub find : AnyAddr → List (AnyAddr × V) → Option V
  find k [] = none
  find k ((j, v) ∷ m) = if equivalent j k then some v else find k m

  unfoldable pub replace : AnyAddr → V → List (AnyAddr × V) → List (AnyAddr × V)
  replace k v [] = []
  replace k v ((j, w) ∷ m) = if equivalent j k then (j, v) ∷ m else (j, w) ∷ replace k v m

abbrev pub is_mac : AnyAddr → Bool
is_mac a = same_family a.af mac || same_family a.af ax25

abbrev pub is_ip : AnyAddr → Bool
is_ip a = same_family a.af ipv4 || same_family a.af ipv6

-- `update_cache` behind its assertions, at a time `now`.
unfoldable pub stored : Cache → AnyAddr → AnyAddr → ℕ → Bool → ℕ → Cache
stored c mac_addr ip interface static_entry now =
    let e : Entry = record {
      ts = if static_entry then 0 else now;
      addr = mac_addr;
      interface = interface;
    } in
    record {
      cache = elim (find ip c.cache) [
        | none ↦ c.cache ++ (ip, e) ∷ []
        | some old ↦ if old.ts == 0 then c.cache else replace ip e c.cache
      ];
      mac_cache = elim (find mac_addr c.mac_cache) [
        | none ↦ c.mac_cache ++ (mac_addr, interface) ∷ []
        | some old ↦ c.mac_cache
      ];
    }

-- `none`: an assertion on the families fails.
unfoldable pub update_cache : Cache → AnyAddr → AnyAddr → ℕ → Bool → ℕ → Option Cache
update_cache c mac_addr ip interface static_entry now =
    if is_mac mac_addr && is_ip ip
    then some (stored c mac_addr ip interface static_entry now)
    else none

unfoldable pub add_static_entry : Cache → ℕ → AnyAddr → AnyAddr → ℕ → Option Cache
add_static_entry c interface mac_addr ip now = update_cache c mac_addr ip interface true now

unfoldable pub query_cache : Cache → AnyAddr → Bool → Option (ℕ × AnyAddr)
query_cache c ip static_entry = elim (find ip c.cache) [
  | none ↦ none
  | some e ↦ if static_entry && not (e.ts == 0) then none else some (e.interface, e.addr)
]

unfoldable pub query_mac_cache : Cache → AnyAddr → Option ℕ
query_mac_cache c mac_addr = find mac_addr c.mac_cache

-- Entries of an hour or more, static ones excepted.
unfoldable pub expired : ℕ → Entry → Bool
expired now e = not (e.ts == 0) && leb 3600000000 (sub64 now e.ts)

-- The keys of a map are different, so erasing the collected keys drops the collected entries.
unfoldable pub kept : ℕ → List (AnyAddr × Entry) → List (AnyAddr × Entry)
kept now [] = []
kept now ((k, e) ∷ m) = let rest = kept now m in if expired now e then rest else (k, e) ∷ rest

-- The body of the loop of `cache_cleaner`.
unfoldable pub cache_cleaner : Cache → ℕ → Cache
cache_cleaner c now = record c { cache = kept now c.cache }
