-- ===== src/Mdns.antt =====
-- mdns.cpp: the announcement of a service under the parts of its name. A part has no byte 0.
pub mod Records
use myip.Base.{
  ℕ, zero, suc, ◌+◌, ◌-◌, ◌*◌, Bool, true, false, Option, none, some, List, [], ◌∷◌, ◌++◌, ◌==◌,
  ltb, if◌then◌else◌, length, take, u8, shr, shl, bit_or, be16, be32,
}
use myip.Addr.Defs.{AnyAddr}
use myip.Dns.Query.{name_bytes, split}

-- `ttl`
abbrev pub ttl : ℕ
ttl = 5

-- A name, with the byte that ends it.
abbrev pub name_end : List (List ℕ) → List ℕ
name_end name = name_bytes name ++ 0 ∷ []

-- The head of a record behind its name: type, class, and time to live.
abbrev pub record_head : ℕ → ℕ → List ℕ
record_head type class_ = be16 type ++ (be16 class_ ++ be32 ttl)

-- The text "local".
abbrev pub local : List ℕ
local = 108 ∷ 111 ∷ 99 ∷ 97 ∷ 108 ∷ []

-- The length of the bytes of a name, without its end.
unfoldable pub ptr_data : List (List ℕ) → ℕ
ptr_data [] = 0
ptr_data (part ∷ parts) = length part + 1 + ptr_data parts

-- The record of the service, whose name is the rest of the name.
unfoldable pub add_ptr : List ℕ → List (List ℕ) → List ℕ
unfolding ptr_data
add_ptr first parts =
    name_end parts
    ++ (record_head 12 1 ++ (be16 (1 + ptr_data (first ∷ parts)) ++ name_end (first ∷ parts)))

unfoldable pub add_txt : List (List ℕ) → List ℕ
add_txt name = name_end name ++ (record_head 16 0x8001 ++ be16 0)

-- The first part of the name is `first`.
unfoldable pub add_srv : List ℕ → List (List ℕ) → ℕ → List ℕ
add_srv first name port =
    name_end name
    ++ (record_head 33 0x8001
        ++ (be16 (2 + 2 + 2 + 1 + length first + 1 + 5 + 1)
            ++ (be16 0 ++ (be16 0 ++ (be16 port ++ name_end (first ∷ local ∷ []))))))

unfoldable pub add_a : List ℕ → AnyAddr → List ℕ
add_a first a =
    name_end (first ∷ local ∷ [])
    ++ (record_head 1 0x8001 ++ 0 ∷ u8 a.addr_size ∷ take a.addr_size a.addr)

-- `add_nsec`, which nothing calls; the bits of the map are those of A, PTR, TXT, SRV and NSEC.
unfoldable pub add_nsec : List ℕ → List ℕ
add_nsec first =
    name_end (first ∷ local ∷ [])
    ++ (record_head 47 1
        ++ (be16 (1 + length first + 1 + 5 + 1 + 2 + 6)
            ++ (name_end (first ∷ local ∷ [])
                ++ 0 ∷ 6 ∷ 0x40 ∷ 0x08 ∷ 0x80 ∷ 0 ∷ 0x40 ∷ 0x01 ∷ [])))

abbrev pub head : List ℕ
head = 0 ∷ 0 ∷ 0x84 ∷ 0 ∷ 0 ∷ 0 ∷ 0 ∷ 3 ∷ 0 ∷ 0 ∷ 0 ∷ 0 ∷ []

-- `hostname` without a dot at its end.
abbrev pub without_last_dot : List ℕ → List ℕ
without_last_dot [] = []
without_last_dot (c ∷ []) = if c == 46 then [] else c ∷ []
without_last_dot (c ∷ d ∷ rest) = c ∷ without_last_dot (d ∷ rest)

-- The packet of an entry of `protocols`; `none`: the hostname has no part, or the packet does not fit the
-- buffer.
unfoldable pub announcement : List ℕ → ℕ → AnyAddr → Option (List ℕ)
unfolding split add_ptr add_txt add_srv add_a
announcement hostname port src_addr = elim (split 46 (without_last_dot hostname)) [
  | [] ↦ none
  | first ∷ parts ↦
      let name = first ∷ parts in
      let out =
        head
        ++ (add_ptr first parts
            ++ (add_txt name ++ (add_srv first name port ++ add_a first src_addr))) in
      if ltb 256 (length out) then none else some out
]
