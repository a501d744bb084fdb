-- ===== src/Mdns/Records.antt =====
-- The announcements of mdns.cpp, taken apart into records.
use myip.Base.{
  ℕ, zero, suc, ◌+◌, ◌≡◌, ◌≤◌, ◌<◌, refl, sym, ap, ap₂, ◌∙◌, Option, none, some, Bool-cases, inl,
  inr, List, [], ◌∷◌, ◌++◌, ltb, arith, length, take, drop, map, u8, shr, be16, All, subst,
  drop-append, append_assoc, append-nil, length-append, length-take,
}
use mathlib.Core.Option.{none-ne-some, some-injective}
use myip.Addr.Defs.{AnyAddr}
use myip.Tcp.Segment.{be16_value}
use myip.Tcp.Wire.{be16_value-be16}
use myip.Dns.{read_answer}
use myip.Dns.Query.{name_bytes, split}
use myip.Dns.Names.{IsLabel, joined, get_name-name_bytes, without_dot-dotted}
use myip.Dns.Packet.{drop-front}
use myip.Mdns.{
  name_end, record_head, local, ptr_data, add_ptr, add_txt, add_srv, add_a, head, announcement,
  without_last_dot,
}

-- A walk over a number of records, one behind another, from an offset on: their types and names, and
-- the offset behind the last one's data. The head of each is read as dns.cpp reads it, and its length
-- leads to the next one.
abbrev pub reads : ℕ → List ℕ → ℕ → Option (List (ℕ × List ℕ) × ℕ)
reads zero p o = some ([], o)
reads (suc n) p o = elim (read_answer p o) [
  | none ↦ none
  | some a ↦ elim (reads n p (a.behind + a.len)) [
    | none ↦ none
    | some (infos, end) ↦ some ((a.type, a.name) ∷ infos, end)
  ]
]

-- A record: its name, type, class and data.
abbrev Record : Type 0
Record = List (List ℕ) × ℕ × ℕ × List ℕ

abbrev record_bytes : Record → List ℕ
record_bytes (name, type, class_, data_) =
    name_end name ++ (record_head type class_ ++ (be16 (length data_) ++ data_))

abbrev all_bytes : List Record → List ℕ
all_bytes [] = []
all_bytes (r ∷ rs) = record_bytes r ++ all_bytes rs

abbrev info : Record → ℕ × List ℕ
info (name, type, class_, data_) = (type, joined name)

abbrev IsRecord : Record → Type 0
IsRecord (name, type, class_, data_) = All IsLabel name × (type < 65536) × (length data_ < 65536)

module _ (p before rest : List ℕ) (name : List (List ℕ)) (type class_ : ℕ) (data_ : List ℕ)
    (labelled : All IsLabel name) (t : type < 65536) (d : length data_ < 65536)
    (h : p ≡ before ++ (record_bytes (name, type, class_, data_) ++ rest)) where
  abbrev head_on : List ℕ
  head_on = record_head type class_ ++ (be16 (length data_) ++ (data_ ++ rest))

  abbrev named : List ℕ
  named = before ++ name_end name

  record_assoc : record_bytes (name, type, class_, data_) ++ rest ≡ name_end name ++ head_on
  record_assoc =
      append_assoc (name_end name) (record_head type class_ ++ (be16 (length data_) ++ data_)) rest

  p-named : p ≡ named ++ head_on
  p-named =
      h ∙ ap (λ q. before ++ q) record_assoc ∙ sym (append_assoc before (name_end name) head_on)

  drop-here : drop (length before) p ≡ name_bytes name ++ 0 ∷ head_on
  drop-here =
      ap (drop (length before)) h
      ∙ drop-append before (record_bytes (name, type, class_, data_) ++ rest)
      ∙ record_assoc
      ∙ append_assoc (name_bytes name) (0 ∷ []) head_on

  named-length : length named ≡ length before + (length (name_bytes name) + 1)
  named-length =
      omega (arith, length-append before (name_end name), length-append (name_bytes name) (0 ∷ []))

  drop-behind :
      (k m : ℕ) → m ≡ length before + (length (name_bytes name) + 1) + k → drop m p ≡ drop k head_on
  drop-behind k m e =
      ap (drop m) p-named ∙ drop-front named head_on k m (omega (arith, named-length))

  read_answer-record :
      read_answer p (length before)
      ≡ some (record {
        name = joined name;
        type = type;
        ttl = 5;
        len = length data_;
        behind = length before + (length (name_bytes name) + 1) + 10;
      })
  unfolding read_answer
  read_answer-record =
      let o : ℕ = length before in
      let n : ℕ = length (name_bytes name) + 1 in
      let ty : be16_value (u8 (shr type 8)) (u8 type) ≡ type = be16_value-be16 type ∙ omega arith in
      let le : be16_value (u8 (shr (length data_) 8)) (u8 (length data_)) ≡ length data_ =
        be16_value-be16 (length data_) ∙ omega arith in
      rw
        (
          get_name-name_bytes p o name head_on labelled drop-here,
          drop-behind 0 (o + n) (omega arith),
          drop-behind 2 (o + n + 2) (omega arith),
          drop-behind 4 (o + n + 4) (omega arith),
          drop-behind 8 (o + n + 8) (omega arith),
          ty,
          le,
          without_dot-dotted name,
        )
        refl

record_bytes-length :
    (name : List (List ℕ)) (type class_ : ℕ) (data_ : List ℕ)
    → length (record_bytes (name, type, class_, data_))
      ≡ length (name_bytes name) + 1 + 10 + length data_
record_bytes-length name type class_ data_ = omega (
  arith,
  length-append (name_end name) (record_head type class_ ++ (be16 (length data_) ++ data_)),
  length-append (name_bytes name) (0 ∷ []),
)

reads-all_bytes :
    (rs : List Record) (before p : List ℕ)
    → All IsRecord rs
    → p ≡ before ++ all_bytes rs
    → reads (length rs) p (length before) ≡ some (map info rs, length p)
reads-all_bytes [] before p g h =
    let size : length p ≡ length before = ap length h ∙ ap length (append-nil before) in
    ap (λ (n : ℕ). some ([], n)) (sym size)
reads-all_bytes ((name, type, class_, data_) ∷ rs) before p ((l, t, d), g) h =
    let r : List ℕ = record_bytes (name, type, class_, data_) in
    let here = read_answer-record p before (all_bytes rs) name type class_ data_ l t d h in
    let n : ℕ = length before + (length (name_bytes name) + 1) + 10 + length data_ in
    let next : n ≡ length (before ++ r) =
      omega (arith, length-append before r, record_bytes-length name type class_ data_) in
    let rest : reads (length rs) p n ≡ some (map info rs, length p) =
      ap (reads (length rs) p) next
      ∙ reads-all_bytes rs (before ++ r) p g (h ∙ sym (append_assoc before r (all_bytes rs))) in
    rw (reads, here, rest) refl

ptr_data-length : (name : List (List ℕ)) → ptr_data name ≡ length (name_bytes name)
unfolding ptr_data name_bytes
ptr_data-length [] = refl
ptr_data-length (part ∷ parts) =
    omega (arith, ptr_data-length parts, length-append part (name_bytes parts))

module _ (first : List ℕ) (parts : List (List ℕ)) (port : ℕ) (a : AnyAddr) where
  abbrev name : List (List ℕ)
  name = first ∷ parts

  abbrev srv_data : List ℕ
  srv_data = 0 ∷ 0 ∷ 0 ∷ 0 ∷ (be16 port ++ name_end (first ∷ local ∷ []))

  -- The records of an announcement.
  abbrev the_records : List Record
  the_records =
      (parts, 12, 1, name_end name)
      ∷ (name, 16, 0x8001, [])
      ∷ (name, 33, 0x8001, srv_data)
      ∷ (first ∷ local ∷ [], 1, 0x8001, take a.addr_size a.addr)
      ∷ []

  add_ptr-bytes : add_ptr first parts ≡ record_bytes (parts, 12, 1, name_end name)
  unfolding add_ptr
  add_ptr-bytes =
      let size : 1 + ptr_data name ≡ length (name_end name) =
        omega (arith, ptr_data-length name, length-append (name_bytes name) (0 ∷ [])) in
      ap (λ (n : ℕ). name_end parts ++ (record_head 12 1 ++ (be16 n ++ name_end name))) size

  add_txt-bytes : add_txt name ≡ record_bytes (name, 16, 0x8001, [])
  unfolding add_txt
  add_txt-bytes = refl

  add_srv-bytes : add_srv first name port ≡ record_bytes (name, 33, 0x8001, srv_data)
  unfolding add_srv name_bytes
  add_srv-bytes =
      let size : 2 + 2 + 2 + 1 + length first + 1 + 5 + 1 ≡ length srv_data = omega (
        arith,
        length-append (name_bytes (first ∷ local ∷ [])) (0 ∷ []),
        length-append first (name_bytes (local ∷ [])),
      ) in
      ap (λ (n : ℕ). name_end name ++ (record_head 33 0x8001 ++ (be16 n ++ srv_data))) size

  add_a-bytes :
      a.addr_size ≤ length a.addr
      → a.addr_size ≤ 16
      → add_a first a ≡ record_bytes (first ∷ local ∷ [], 1, 0x8001, take a.addr_size a.addr)
  unfolding add_a
  add_a-bytes h k =
      let size : length (take a.addr_size a.addr) ≡ a.addr_size =
        length-take a.addr_size a.addr ∙ omega arith in
      let high : 0 ≡ u8 (shr (length (take a.addr_size a.addr)) 8) = omega arith in
      let low : u8 a.addr_size ≡ u8 (length (take a.addr_size a.addr)) = ap u8 (sym size) in
      ap₂
        (λ (x y : ℕ).
          name_end (first ∷ local ∷ [])
          ++ (record_head 1 0x8001 ++ x ∷ y ∷ take a.addr_size a.addr))
        high low

  abbrev the_packet : List ℕ
  the_packet =
      head ++ (add_ptr first parts ++ (add_txt name ++ (add_srv first name port ++ add_a first a)))

  packet-records :
      a.addr_size ≤ length a.addr → a.addr_size ≤ 16 → the_packet ≡ head ++ all_bytes the_records
  packet-records h k =
      ap (λ q. head ++ q)
        (ap₂ (λ x y. x ++ y) add_ptr-bytes
          (ap₂ (λ x y. x ++ y) add_txt-bytes
            (ap₂ (λ x y. x ++ y) add_srv-bytes (add_a-bytes h k ∙ sym (append-nil _)))))

  records-IsRecord :
      All IsLabel name → length (all_bytes the_records) ≤ 256 → All IsRecord the_records
  records-IsRecord (l, ls) fits =
      let local_label : IsLabel local =
        (omega arith, omega arith, (refl, (refl, (refl, (refl, (refl, tt)))))) in
      let one : List ℕ = record_bytes (parts, 12, 1, name_end name) in
      let two : List ℕ = record_bytes (name, 16, 0x8001, []) in
      let three : List ℕ = record_bytes (name, 33, 0x8001, srv_data) in
      let four : List ℕ = record_bytes (first ∷ local ∷ [], 1, 0x8001, take a.addr_size a.addr) in
      let s1 = length-append one (two ++ (three ++ (four ++ []))) in
      let s2 = length-append two (three ++ (four ++ [])) in
      let s3 = length-append three (four ++ []) in
      let s4 = length-append four [] in
      let r1 = record_bytes-length parts 12 1 (name_end name) in
      let r3 = record_bytes-length name 33 0x8001 srv_data in
      let r4 = record_bytes-length (first ∷ local ∷ []) 1 0x8001 (take a.addr_size a.addr) in
      (
        (ls, omega arith, omega arith),
        (
          ((l, ls), omega arith, omega arith),
          (
            ((l, ls), omega arith, omega arith),
            (((l, (local_label, tt)), omega arith, omega arith), tt),
          ),
        ),
      )

  announced :
      (hostname out : List ℕ)
      → split 46 (without_last_dot hostname) ≡ name
      → announcement hostname port a ≡ some out
      → (out ≡ the_packet) × (length out ≤ 256)
  unfolding announcement
  announced hostname out h e = elim (Bool-cases (ltb 256 (length the_packet))) [
    | inl long ↦ absurd (none-ne-some out (sym (rw (announcement, h, long) refl) ∙ e))
    | inr fits ↦
        let same : the_packet ≡ out =
          some-injective _ _ (sym (rw (announcement, h, fits) refl) ∙ e) in
        let short : length the_packet ≤ 256 = ground arith in
        (sym same, subst (λ q. length q ≤ 256) same short)
  ]

-- An announcement that fits its buffer, of a name whose parts are labels, has exactly four records behind
-- its head, each of which the length of the one before leads to, and the last one's to the end of the
-- bytes: PTR under the name without its first part, TXT
-- and SRV under the name, and A under the first part with "local" behind it.
pub announcement-read :
    (hostname first : List ℕ) (parts : List (List ℕ)) (port : ℕ) (a : AnyAddr) (out : List ℕ)
    → split 46 (without_last_dot hostname) ≡ first ∷ parts
    → All IsLabel (first ∷ parts)
    → a.addr_size ≤ length a.addr
    → a.addr_size ≤ 16
    → announcement hostname port a ≡ some out
    → reads 4 out 12
      ≡ some (
        (12, joined parts)
            ∷ (16, joined (first ∷ parts))
            ∷ (33, joined (first ∷ parts))
            ∷ (1, joined (first ∷ local ∷ []))
            ∷ [],
        length out,
      )
announcement-read hostname first parts port a out h labelled k m e =
    let (same, fits) = announced first parts port a hostname out h e in
    let whole : out ≡ head ++ all_bytes (the_records first parts port a) =
      same ∙ packet-records first parts port a k m in
    let size = ap length whole in
    reads-all_bytes (the_records first parts port a) head out
      (records-IsRecord first parts port a labelled (omega arith)) whole
