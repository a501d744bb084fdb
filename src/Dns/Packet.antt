-- ===== src/Dns/Packet.antt =====
-- An answer of a DNS server to a question, read by the code of dns.cpp.
use myip.Base.{
  ℕ, suc, ◌+◌, ◌%◌, ◌^◌, ◌≡◌, ◌<◌, refl, sym, ap, ◌∙◌, true, false, some, List, [], ◌∷◌, ◌++◌, ◌==◌,
  ltb, arith, length, drop, u8, All, append_assoc, length-append, Bool-cases, inl, inr, same_bytes,
  same_bytes_self, not_ltb, be16, be32, shr, ◌>>=◌,
}
use myip.Addr.Defs.{set, AnyAddr, ipv4, make, same_addr}
use myip.Dns.{
  labels, labels_at, Dns, Answer, find, insert_or_assign, get_name, questions, read_answer, store,
  answers, input,
}
use myip.Dns.Query.{name_bytes}
use myip.Tcp.Segment.{be32_value, be16_value}
use myip.Tcp.Wire.{be32_value-be32, be16_value-be16}
use myip.Dns.Names.{
  IsLabel, dotted, joined, labels-name_bytes, get_name-name_bytes, without_dot-dotted,
}

pub find-insert_or_assign :
    {V : Type 0} (k : List ℕ) (v : V) (m : List (List ℕ × V))
    → find k (insert_or_assign k v m) ≡ some v
unfolding find insert_or_assign
find-insert_or_assign k v [] = rw (same_bytes_self k) refl
find-insert_or_assign k v ((j, w) ∷ m) = elim (Bool-cases (same_bytes j k)) [
  | inl e ↦ rw (e, same_bytes_self k) refl
  | inr e ↦ rw (e, e) (find-insert_or_assign k v m)
]

-- The answer of a server to a request for an address: the question again, and one address record whose
-- name is a pointer to it.
abbrev pub answer_to : ℕ → ℕ → ℕ → List (List ℕ) → ℕ → List ℕ → List ℕ → List ℕ
answer_to id flags class_ parts ttl address rest =
    be16 id
    ++ (be16 flags
        ++ (be16 1
            ++ (be16 1
                ++ (be32 0
                    ++ (name_bytes parts
                        ++ 0
                          ∷ 0
                          ∷ 1
                          ∷ 0
                          ∷ 1
                          ∷ 0xc0
                          ∷ 0x0c
                          ∷ 0
                          ∷ 1
                          ∷ (be16 class_ ++ (be32 ttl ++ 0 ∷ 4 ∷ (address ++ rest))))))))

pub drop-front :
    (front tail : List ℕ) (k m : ℕ) → m ≡ length front + k → drop m (front ++ tail) ≡ drop k tail
drop-front [] tail k m h = ap (λ (n : ℕ). drop n tail) (omega arith)
drop-front (x ∷ front) tail k m h =
    let e : m ≡ suc (length front + k) = omega arith in
    rw e (drop-front front tail k (length front + k) refl)

labels_at-front :
    (p : List ℕ) (o : ℕ) (buffer : List ℕ)
    → drop o p ≡ buffer
    → labels_at p o ≡ labels (length buffer) buffer [] 0
labels_at-front p o buffer h = ap (λ b. labels (length b) b [] 0) h

-- A pointer to the name of the question.
get_name-pointer :
    (p : List ℕ) (o : ℕ) (parts : List (List ℕ)) (rest tail : List ℕ)
    → All IsLabel parts
    → drop 12 p ≡ name_bytes parts ++ 0 ∷ rest
    → drop o p ≡ 0xc0 ∷ 0x0c ∷ tail
    → get_name p o ≡ some (dotted parts, 2)
unfolding get_name labels
get_name-pointer p o parts rest tail a h k =
    let name : List ℕ = name_bytes parts ++ 0 ∷ rest in
    rw
      (
        get_name,
        labels_at-front p o (0xc0 ∷ 0x0c ∷ tail) k,
        labels_at-front p 12 name h,
        labels-name_bytes (length name) parts rest [] 0 a
            (omega (arith, length-append (name_bytes parts) (0 ∷ rest))),
      )
      refl

module _ (id flags class_ ttl a b c e now : ℕ) (parts : List (List ℕ)) (rest : List ℕ)
    (labelled : All IsLabel parts) (plain : flags % 65536 == 0x8400 ≡ false)
    (small : ttl < 2 ^ 32) where
  abbrev pub packet : List ℕ
  packet = answer_to id flags class_ parts ttl (a ∷ b ∷ c ∷ e ∷ []) rest

  -- What stands behind the question.
  abbrev tail : List ℕ
  tail = 0xc0 ∷ 0x0c ∷ 0 ∷ 1 ∷ (be16 class_ ++ (be32 ttl ++ 0 ∷ 4 ∷ a ∷ b ∷ c ∷ e ∷ rest))

  abbrev front : List ℕ
  front =
      be16 id
      ++ (be16 flags
          ++ (be16 1 ++ (be16 1 ++ (be32 0 ++ (name_bytes parts ++ 0 ∷ 0 ∷ 1 ∷ 0 ∷ 1 ∷ [])))))

  packet-front : packet ≡ front ++ tail
  packet-front =
      ap (λ t. be16 id ++ (be16 flags ++ (be16 1 ++ (be16 1 ++ (be32 0 ++ t)))))
        (sym (append_assoc (name_bytes parts) (0 ∷ 0 ∷ 1 ∷ 0 ∷ 1 ∷ []) tail))

  drop-packet :
      (k m : ℕ) → m ≡ 12 + (length (name_bytes parts) + 1) + 4 + k → drop m packet ≡ drop k tail
  drop-packet k m h =
      let size : m ≡ length front + k =
        omega (arith, length-append (name_bytes parts) (0 ∷ 0 ∷ 1 ∷ 0 ∷ 1 ∷ [])) in
      ap (drop m) packet-front ∙ drop-front front tail k m size

  packet-length : length packet ≡ 12 + (length (name_bytes parts) + 1) + 4 + length tail
  packet-length = omega (arith, length-append (name_bytes parts) (0 ∷ 0 ∷ 1 ∷ 0 ∷ 1 ∷ tail))

  abbrev the_answer : Answer
  the_answer = record {
    name = joined parts;
    type = 1;
    ttl = ttl;
    len = 4;
    behind = 12 + (length (name_bytes parts) + 1) + 4 + 2 + 10;
  }

  read_answer-packet :
      read_answer packet (12 + (length (name_bytes parts) + 1) + 4) ≡ some the_answer
  unfolding read_answer
  read_answer-packet =
      let o : ℕ = 12 + (length (name_bytes parts) + 1) + 4 in
      let named =
        get_name-pointer packet o parts _ (drop 2 tail) labelled refl
          (drop-packet 0 o (omega arith)) in
      let t : be32_value (u8 (shr ttl 24)) (u8 (shr ttl 16)) (u8 (shr ttl 8)) (u8 ttl) ≡ ttl =
        be32_value-be32 ttl ∙ omega arith in
      rw
        (
          named,
          drop-packet 2 (o + 2) (omega arith),
          drop-packet 4 (o + 2 + 2) (omega arith),
          drop-packet 6 (o + 2 + 4) (omega arith),
          drop-packet 10 (o + 2 + 8) (omega arith),
          t,
          without_dot-dotted parts,
        )
        refl

  question-packet : questions 1 packet 12 ≡ some (12 + (length (name_bytes parts) + 1) + 4)
  unfolding questions
  question-packet =
      let whole : ltb (length packet) (12 + (length (name_bytes parts) + 1) + 4) ≡ false =
        not_ltb (length packet) (12 + (length (name_bytes parts) + 1) + 4)
          (omega (arith, packet-length)) in
      rw (questions, get_name-name_bytes packet 12 parts _ labelled refl, whole) refl

  abbrev pub learned : Dns → Dns
  learned d = record d {
    a_aaaa_cache =
        insert_or_assign (joined parts)
          (record { value = make ipv4 (a ∷ b ∷ c ∷ e ∷ []); t = now; max_age = ttl })
          d.a_aaaa_cache;
  }

  store-packet : (d : Dns) → store d packet now the_answer ≡ some (learned d)
  unfolding store set
  store-packet d =
      let n : ℕ = length (name_bytes parts) in
      let room : ltb (length (drop 12 tail)) 4 ≡ false =
        not_ltb (length (a ∷ b ∷ c ∷ e ∷ rest)) 4 (omega arith) in
      rw (store, drop-packet 12 (12 + (n + 1) + 4 + 2 + 10) (omega arith), room) refl

  answers-packet :
      (d : Dns)
      → answers 1 d packet now (12 + (length (name_bytes parts) + 1) + 4) ≡ some (learned d)
  unfolding answers
  answers-packet d = rw (answers, read_answer-packet, store-packet d) refl

  -- The packet changes the cache of addresses, by its address.
  pub input-packet :
      (d : Dns) (src : AnyAddr)
      → same_addr src d.dns_ip ≡ true
      → input d src packet now ≡ some (learned d)
  unfolding input
  input-packet d src h =
      let fl : be16_value (u8 (shr flags 8)) (u8 flags) == 0x8400 ≡ false =
        rw (be16_value-be16 flags) plain in
      let big : ltb (length packet) 12 ≡ false =
        not_ltb (length packet) 12 (omega (arith, packet-length)) in
      rw (h, fl, big)
        (ap (λ q. q >>= (λ (o : ℕ). answers 1 d packet now o)) question-packet ∙ answers-packet d)
