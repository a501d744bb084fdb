-- ===== src/Dns.antt =====
-- `class dns` of dns.cpp: the reading of answers, and a pass of a query over the caches. A text is the
-- list of its characters. A read behind the packet, or a write behind the buffer of a request, is `none`.
pub mod Query
pub mod Names
pub mod Packet
pub mod Answers
use myip.Base.{
  u32, sub32, ℕ, zero, suc, ◌+◌, ◌-◌, ◌*◌, ◌/◌, ◌%◌, Bool, true, false, ◌&&◌, Option, none, some,
  List, [], ◌∷◌, ◌++◌, ◌==◌, ltb, leb, if◌then◌else◌, length, take, drop, map, u8, shl, bit_and,
  bit_or, ◌>>=◌, same_bytes,
}
use myip.Addr.Defs.{AnyAddr, Family, ipv4, ipv6, make, same_addr}

-- `dns_a_rec_t` and `dns_cname_rec_t`: an address or a name, the time it came, and the bits of
-- `max_age`, an `int`.
pub record Record (V : Type 0) : Type 0 where
  pub value : V
  pub t : ℕ
  pub max_age : ℕ

pub record Dns : Type 0 where
  pub dns_ip : AnyAddr
  pub my_ip : AnyAddr
  pub a_aaaa_cache : List (List ℕ × Record AnyAddr)
  pub cname_cache : List (List ℕ × Record (List ℕ))

-- `now - t < max_age`
abbrev pub is_fresh : {V : Type 0} → ℕ → Record V → Bool
is_fresh now r =
    if ltb r.max_age 0x80000000
    then ltb now (r.t + r.max_age)
    else ltb (now + (0x100000000 - r.max_age)) r.t

-- The test of `query` on an address: `int age = now - t`, the low 32 bits with a sign, below `max_age`.
-- Both sides are moved up by 2^31 for it.
abbrev pub is_young : {V : Type 0} → ℕ → Record V → Bool
is_young now r = ltb (u32 (sub32 (u32 now) (u32 r.t) + 0x80000000)) (u32 (r.max_age + 0x80000000))

module _ {V : Type 0} where
  unfoldable pub find : List ℕ → List (List ℕ × V) → Option V
  find k [] = none
  find k ((j, v) ∷ m) = if same_bytes j k then some v else find k m

  unfoldable pub insert_or_assign : List ℕ → V → List (List ℕ × V) → List (List ℕ × V)
  insert_or_assign k v [] = (k, v) ∷ []
  insert_or_assign k v ((j, w) ∷ m) =
      let rest = insert_or_assign k v m in if same_bytes j k then (k, v) ∷ m else (j, w) ∷ rest

  -- A loop of `operator()` over a cache.
  unfoldable pub flush : ℕ → List (List ℕ × Record V) → List (List ℕ × Record V)
  flush now [] = []
  flush now ((k, r) ∷ m) = let rest = flush now m in if is_fresh now r then (k, r) ∷ rest else rest

-- The loop of `get_name` over the bytes from its start on: the labels, each with a dot behind it, the
-- number of bytes, and the offset of a pointer that ended it. A fuel of the number of bytes is enough.
unfoldable pub labels : ℕ → List ℕ → List ℕ → ℕ → Option (List ℕ × ℕ × Option ℕ)
labels fuel [] name tl = none
labels zero (len ∷ buffer) name tl = none
labels (suc fuel) (len ∷ buffer) name tl =
    let more =
      labels fuel (drop len buffer) (name ++ (take len buffer ++ 46 ∷ [])) (tl + 1 + len) in
    if len == 0
    then some (name, tl + 1, none)
    else (if leb 64 len
        then elim buffer [
          | [] ↦ none
          | b ∷ rest ↦ some (name, tl + 2, some (bit_or (shl (bit_and len 0x3f) 8) b))
        ]
        else (if ltb (length buffer) len then none else more))

abbrev pub labels_at : List ℕ → ℕ → Option (List ℕ × ℕ × Option ℕ)
labels_at base o = let buffer = drop o base in labels (length buffer) buffer [] 0

-- The byte that a pointer points to is printed, also if it is not followed.
abbrev pub is_readable : List ℕ → Option ℕ → Bool
is_readable base none = true
is_readable base (some offset) = ltb offset (length base)

-- `get_name` at an offset; a pointer is followed once.
unfoldable pub get_name : List ℕ → ℕ → Option (List ℕ × ℕ)
unfolding labels
get_name base o = elim (labels_at base o) [
  | none ↦ none
  | some (name, tl, none) ↦ some (name, tl)
  | some (name, tl, some offset) ↦ elim (labels_at base offset) [
    | none ↦ none
    | some (sub, sub_tl, pointer) ↦
        if is_readable base pointer then some (name ++ sub, tl) else none
  ]
]

-- `name.substr(0, name.size() - 1)`; of an empty text everything.
abbrev pub without_dot : List ℕ → List ℕ
without_dot name = take (length name - 1) name

-- Numbers at the front of the bytes from `work_p` on.
abbrev pub be16_front : List ℕ → Option ℕ
be16_front (a ∷ b ∷ p) = some (bit_or (shl a 8) b)
be16_front (a ∷ []) = none
be16_front [] = none

abbrev pub be32_front : List ℕ → Option ℕ
be32_front (a ∷ b ∷ c ∷ d ∷ p) = some (bit_or (bit_or (bit_or (shl a 24) (shl b 16)) (shl c 8)) d)
be32_front (a ∷ b ∷ c ∷ []) = none
be32_front (a ∷ b ∷ []) = none
be32_front (a ∷ []) = none
be32_front [] = none

-- The loop over the questions: where it ends.
unfoldable pub questions : ℕ → List ℕ → ℕ → Option ℕ
unfolding get_name
questions zero p o = some o
questions (suc n) p o = elim (get_name p o) [
  | none ↦ none
  | some (name, tl) ↦ if ltb (length p) (o + tl + 4) then none else questions n p (o + tl + 4)
]

-- An answer: its name without the last dot, its type, its time to live and its length, and the offset
-- behind them.
pub record Answer : Type 0 where
  pub name : List ℕ
  pub type : ℕ
  pub ttl : ℕ
  pub len : ℕ
  pub behind : ℕ

unfoldable pub read_answer : List ℕ → ℕ → Option Answer
unfolding get_name
read_answer p o = do
  name ← get_name p o
  type ← be16_front (drop (o + name.1) p)
  class_ ← be16_front (drop (o + name.1 + 2) p)
  ttl ← be32_front (drop (o + name.1 + 4) p)
  len ← be16_front (drop (o + name.1 + 8) p)
  some (record {
    name = without_dot name.0;
    type = type;
    ttl = ttl;
    len = len;
    behind = o + name.1 + 10;
  })

-- An address record of a number of bytes.
abbrev pub store_address : Dns → List ℕ → ℕ → Answer → Family → ℕ → Option Dns
store_address d p now a f size =
    let work_p = drop a.behind p in
    let dr : Record AnyAddr = record { value = make f work_p; t = now; max_age = a.ttl } in
    if ltb (length work_p) size
    then none
    else some (record d { a_aaaa_cache = insert_or_assign a.name dr d.a_aaaa_cache })

-- What an answer, received at a time, changes.
unfoldable pub store : Dns → List ℕ → ℕ → Answer → Option Dns
unfolding insert_or_assign get_name
store d p now a =
    if a.len == 4 && a.type == 1
    then store_address d p now a ipv4 4
    else (if a.type == 5
        then elim (get_name p a.behind) [
          | none ↦ none
          | some (cname, tl) ↦
              let dr : Record (List ℕ) = record {
                value = without_dot cname;
                t = now;
                max_age = a.ttl;
              } in
              some (record d { cname_cache = insert_or_assign a.name dr d.cname_cache })
        ]
        else (if a.len == 16 && a.type == 28 then store_address d p now a ipv6 16 else some d))

-- The loop over the answers. The data of an answer is not passed over.
unfoldable pub answers : ℕ → Dns → List ℕ → ℕ → ℕ → Option Dns
unfolding read_answer store
answers zero d p now o = some d
answers (suc n) d p now o = elim (read_answer p o) [
  | none ↦ none
  | some a ↦ elim (store d p now a) [ none ↦ none | some d' ↦ answers n d' p now a.behind ]
]

-- `input` on the bytes of a packet that came at a time.
unfoldable pub input : Dns → AnyAddr → List ℕ → ℕ → Option Dns
unfolding questions answers
input d src_ip p now =
    if same_addr src_ip d.dns_ip
    then (do
      flags ← be16_front (drop 2 p)
      if flags == 0x8400 then some d else do
        qdcount ← be16_front (drop 4 p)
        ancount ← be16_front (drop 6 p)
        o ← if ltb (length p) 12 then none else questions qdcount p 12
        answers ancount d p now o)
    else some d
