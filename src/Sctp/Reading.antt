-- ===== src/Sctp/Reading.antt =====
-- What the handler of sctp.cpp reads of a packet with one chunk.
use myip.Base.{
  Bool-cases, inl, inr, ℕ, suc, ◌+◌, ◌-◌, ◌%◌, ◌^◌, ◌≡◌, ◌≤◌, ◌<◌, refl, ap, ◌∙◌, true, false, some,
  List, [], ◌∷◌, ◌++◌, ◌==◌, ltb, arith, length, drop, replicate, be16, be32, u8, shr,
  length-append, length-replicate,
}
use myip.Buffer.{
  BufferIn, get_net_byte, get_net_short, get_net_long, get_segment, seek, end_reached,
}
use myip.Buffer.RoundTrip.{get_or-append}
use myip.Tcp.Wire.{be32_value-be32, be16_value-be16}
use myip.Sctp.{Context, Work}
use myip.Sctp.Chunks.{returned, on_chunk, skip_padding, padding_of}
use myip.Sctp.Handler.{finished, chunk_head, chunks, read_header}

abbrev pub reader_at : List ℕ → ℕ → ℕ → BufferIn
reader_at p size o = record { p = p; size = size; o = o }

-- A number is read where its bytes stand.
pub get_net_long-here :
    (front rest : List ℕ) (l size : ℕ)
    → l < 2 ^ 32
    → length front + 4 ≤ size
    → get_net_long (reader_at (front ++ (be32 l ++ rest)) size (length front))
      ≡ some (l, reader_at (front ++ (be32 l ++ rest)) size (length front + 4))
unfolding get_net_long
get_net_long-here front rest l size small h = ground (
  arith,
  get_or-append front (be32 l ++ rest) 0,
  get_or-append front (be32 l ++ rest) 1,
  get_or-append front (be32 l ++ rest) 2,
  get_or-append front (be32 l ++ rest) 3,
  be32_value-be32 l,
)

pub get_net_short-here :
    (front rest : List ℕ) (s size : ℕ)
    → s < 65536
    → length front + 2 ≤ size
    → get_net_short (reader_at (front ++ (be16 s ++ rest)) size (length front))
      ≡ some (s, reader_at (front ++ (be16 s ++ rest)) size (length front + 2))
unfolding get_net_short
get_net_short-here front rest s size small h = ground (
  arith,
  get_or-append front (be16 s ++ rest) 0,
  get_or-append front (be16 s ++ rest) 1,
  be16_value-be16 s,
)

get_net_byte-here :
    (front rest : List ℕ) (x size : ℕ)
    → length front + 1 ≤ size
    → get_net_byte (reader_at (front ++ x ∷ rest) size (length front))
      ≡ some (x, reader_at (front ++ x ∷ rest) size (length front + 1))
unfolding get_net_byte
get_net_byte-here front rest x size h = ground (arith, get_or-append front (x ∷ rest) 0)

-- The eight bytes behind the ports are read and not used.
pub read_header-here :
    (sp dp x y : ℕ) (rest : List ℕ)
    → sp < 65536
    → dp < 65536
    → x < 2 ^ 32
    → y < 2 ^ 32
    → let p : List ℕ = be16 sp ++ (be16 dp ++ (be32 x ++ (be32 y ++ rest))) in
      read_header p ≡ some ((sp, dp), reader_at p (length p) 12)
unfolding read_header
read_header-here sp dp x y rest hs hd hx hy =
    let n : ℕ = 12 + length rest in
    let p : List ℕ = be16 sp ++ (be16 dp ++ (be32 x ++ (be32 y ++ rest))) in
    rw
      (
        get_net_short-here [] (be16 dp ++ (be32 x ++ (be32 y ++ rest))) sp (length p) hs
            (omega arith),
        get_net_short-here (be16 sp) (be32 x ++ (be32 y ++ rest)) dp (length p) hd (omega arith),
        get_net_long-here (be16 sp ++ be16 dp) (be32 y ++ rest) x (length p) hx (omega arith),
        get_net_long-here (be16 sp ++ (be16 dp ++ be32 x)) rest y (length p) hy (omega arith),
      )
      refl

-- A packet with one chunk, of a type and a content, behind a header.
abbrev pub with_chunk : List ℕ → ℕ → ℕ → List ℕ → List ℕ
with_chunk front type flags content =
    front
    ++ type
      ∷ flags
      ∷ (be16 (4 + length content) ++ (content ++ replicate (padding_of (4 + length content)) 0))

chunk_head-here :
    (front : List ℕ) (type flags len : ℕ) (rest : List ℕ)
    → len < 65536
    → let p : List ℕ = front ++ type ∷ flags ∷ (be16 len ++ rest) in
      chunk_head (reader_at p (length p) (length front))
      ≡ some ((type, len), reader_at p (length p) (length front + 4))
unfolding chunk_head get_net_byte get_net_short
chunk_head-here front type flags len rest h =
    let cells : List ℕ = type ∷ flags ∷ (be16 len ++ rest) in
    ground (
      arith,
      get_or-append front cells 0,
      get_or-append front cells 1,
      get_or-append front cells 2,
      get_or-append front cells 3,
      length-append front cells,
      be16_value-be16 len,
    )

drop-behind :
    (front : List ℕ) (a b c d : ℕ) (rest : List ℕ)
    → drop (length front + 4) (front ++ a ∷ b ∷ c ∷ d ∷ rest) ≡ rest
drop-behind [] a b c d rest = refl
drop-behind (x ∷ front) a b c d rest =
    let next : suc (length front) + 4 ≡ suc (length front + 4) = omega arith in
    ap (λ (n : ℕ). drop n (x ∷ (front ++ a ∷ b ∷ c ∷ d ∷ rest))) next
    ∙ drop-behind front a b c d rest

-- The segment of a chunk behind its head.
get_segment-here :
    (front : List ℕ) (a b c d : ℕ) (rest : List ℕ) (n : ℕ)
    → n ≤ length rest
    → let p : List ℕ = front ++ a ∷ b ∷ c ∷ d ∷ rest in
      get_segment (reader_at p (length p) (length front + 4)) n
      ≡ some (reader_at rest n 0, reader_at p (length p) (length front + 4 + n))
unfolding get_segment
get_segment-here front a b c d rest n h =
    let cells : List ℕ = a ∷ b ∷ c ∷ d ∷ rest in
    let room : ltb (length (front ++ cells)) (length front + 4 + n) ≡ false =
      ground (arith, length-append front cells) in
    rw (room, drop-behind front a b c d rest) refl

skip_padding-end :
    (p : List ℕ) (len o : ℕ)
    → length p ≡ o + padding_of len
    → skip_padding len (reader_at p (length p) o) ≡ some (reader_at p (length p) (length p))
unfolding skip_padding seek
skip_padding-end p len o h = elim (Bool-cases (len % 4 == 0)) [
  | inl e ↦
      let whole : padding_of len ≡ 0 = rw e refl in
      let here : o ≡ length p = omega arith in
      rw e (ap (λ (n : ℕ). some (reader_at p (length p) n)) here)
  | inr e ↦
      let few : padding_of len ≡ 4 - len % 4 = rw e refl in
      let there : o + (4 - len % 4) ≡ length p = omega arith in
      let room : ltb (length p) (o + (4 - len % 4)) ≡ false = ground arith in
      rw (e, room) (ap (λ (n : ℕ). some (reader_at p (length p) n)) there)
]

with_chunk-length :
    (front : List ℕ) (type flags : ℕ) (content : List ℕ)
    → length (with_chunk front type flags content)
      ≡ length front + 4 + length content + padding_of (4 + length content)
with_chunk-length front type flags content =
    let pad : List ℕ = replicate (padding_of (4 + length content)) 0 in
    let pad_length : length pad ≡ padding_of (4 + length content) = length-replicate _ 0 in
    omega (
      arith,
      length-append front (type ∷ flags ∷ (be16 (4 + length content) ++ (content ++ pad))),
      length-append content pad,
    )

module _ (hmac : List ℕ → List ℕ) (c : Context) (w w' : Work) where
  -- The loop over a packet with one chunk.
  pub chunks-one :
      (front content : List ℕ) (type flags fuel : ℕ)
      → length content < 65532
      → (type == 6) ≡ false
      → let pad : List ℕ = replicate (padding_of (4 + length content)) 0 in
        on_chunk hmac c w type (reader_at (content ++ pad) (length content) 0) ≡ returned w'
        → let p = with_chunk front type flags content in
          chunks hmac (suc (suc fuel)) c w (reader_at p (length p) (length front)) ≡ finished w'
  unfolding chunks end_reached
  chunks-one front content type flags fuel h t one =
      let len : ℕ = 4 + length content in
      let pad : List ℕ = replicate (padding_of len) 0 in
      let p : List ℕ = with_chunk front type flags content in
      let size = with_chunk-length front type flags content in
      let more : (length front == length p) ≡ false = ground arith in
      let long : ltb len 4 ≡ false = ground arith in
      let body : len - 4 ≡ length content = omega arith in
      let fits : length content ≤ length (content ++ pad) =
        omega (arith, length-append content pad) in
      let ends : (length p == length p) ≡ true = ground arith in
      rw
        (
          more,
          chunk_head-here front type flags len (content ++ pad) (omega arith),
          long,
          body,
          get_segment-here front type flags (u8 (shr len 8)) (u8 len) (content ++ pad)
              (length content) fits,
          t,
          one,
          skip_padding-end p len (length front + 4 + length content) size,
          ends,
        )
        refl
