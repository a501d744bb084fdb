-- ===== src/Dns/Query.antt =====
-- `query` of dns.cpp, a pass of its loop, and the request that it sends; `split` and `str_tolower` of
-- str.cpp.
use myip.Base.{
  ℕ, zero, suc, ◌+◌, Bool, true, false, ◌&&◌, Option, none, some, List, [], ◌∷◌, ◌++◌, ◌==◌, ltb,
  leb, if◌then◌else◌, length, map, u8,
}
use myip.Addr.Defs.{AnyAddr}
use myip.Dns.{Dns, find, is_fresh, is_young, flush}

abbrev pub to_lower : ℕ → ℕ
to_lower c = if leb 65 c && leb c 90 then c + 32 else c

unfoldable pub str_tolower : List ℕ → List ℕ
str_tolower s = map to_lower s

-- `split` by one character, behind the characters `before` of a part. Nothing is left behind a
-- splitter at the end: an empty part is added then.
unfoldable pub split_from : ℕ → List ℕ → List ℕ → List (List ℕ)
split_from splitter [] [] = []
split_from splitter (b ∷ before) [] = (b ∷ before) ∷ []
split_from splitter before (c ∷ []) =
    if c == splitter then before ∷ [] ∷ [] else (before ++ c ∷ []) ∷ []
split_from splitter before (c ∷ d ∷ rest) =
    let next = split_from splitter [] (d ∷ rest) in
    let more = split_from splitter (before ++ c ∷ []) (d ∷ rest) in
    if c == splitter then before ∷ next else more

unfoldable pub split : ℕ → List ℕ → List (List ℕ)
unfolding split_from
split splitter s = split_from splitter [] s

-- The parts of a name in a request.
unfoldable pub name_bytes : List (List ℕ) → List ℕ
name_bytes [] = []
name_bytes (part ∷ parts) = u8 (length part) ∷ (part ++ name_bytes parts)

-- The bytes of a request; `none`: they go behind the buffer.
unfoldable pub request : List ℕ → Option (List ℕ)
unfolding split name_bytes
request work =
    let out =
      0
      ∷ 0
      ∷ 1
      ∷ 0
      ∷ 0
      ∷ 1
      ∷ 0
      ∷ 0
      ∷ 0
      ∷ 0
      ∷ 0
      ∷ 0
      ∷ (name_bytes (split 46 work) ++ 0 ∷ 0 ∷ 1 ∷ 0 ∷ 1 ∷ []) in
    if ltb 256 (length out) then none else some out

-- The loop over the names that a name stands for: the last one, and `send_req`.
unfoldable pub follow : ℕ → Dns → ℕ → List ℕ → Bool → List ℕ × Bool
unfolding find
follow zero d now work send_req = (work, send_req)
follow (suc n) d now work send_req = elim (find work d.cname_cache) [
  | none ↦ (work, send_req)
  | some r ↦
      let rest = follow n d now r.value true in if is_fresh now r then rest else (work, send_req)
]

-- What a pass of the loop comes to: an address, or a wait with the name to look for and the request
-- that was sent, if one was; `overrun`: the request does not fit its buffer.
pub data Pass : Type 0 where
  found : (a : AnyAddr) → Pass
  waiting : (work : List ℕ) → (sent : Option (List ℕ)) → Pass
  overrun : Pass

abbrev pub ask : List ℕ → Bool → Pass
ask work false = waiting work none
ask work true = elim (request work) [ none ↦ overrun | some out ↦ waiting work (some out) ]

unfoldable pub pass_on : Dns → ℕ → List ℕ × Bool → Pass
unfolding find request
pass_on d now (work, send_req) = elim (find work d.a_aaaa_cache) [
  | none ↦ ask work send_req
  | some r ↦ if is_young now r then found r.value else ask work send_req
]

-- A pass of the loop at a time.
unfoldable pub query_pass : Dns → ℕ → List ℕ → Bool → Pass
unfolding follow pass_on
query_pass d now work send_req = pass_on d now (follow 8 d now work send_req)

-- The first pass for a name.
unfoldable pub query : Dns → ℕ → List ℕ → Pass
unfolding str_tolower query_pass
query d now name = query_pass d now (str_tolower name) true

-- A round of `operator()`.
unfoldable pub clean : Dns → ℕ → Dns
unfolding flush
clean d now = record d {
  a_aaaa_cache = flush now d.a_aaaa_cache;
  cname_cache = flush now d.cname_cache;
}
