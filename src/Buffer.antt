-- ===== src/Buffer.antt =====
-- `class buffer_in` of buffer_in.cpp and `class buffer_out` of buffer_out.cpp: reading and writing of
-- numbers in network order. An exception is `none`; it leaves the reader as it was.
pub mod RoundTrip
use myip.Base.{
  ℕ, zero, suc, ◌+◌, ◌-◌, ◌*◌, ◌%◌, ◌^◌, Bool, true, false, Option, none, some, List, [], ◌∷◌, ◌++◌,
  ◌==◌, ltb, if◌then◌else◌, length, get_or, take, drop, set, replicate, shl, shr, u8, u64, bit_or,
}

-- The bytes behind the pointer, their number as the caller gave it, and the offset.
pub record BufferIn : Type 0 where
  pub p : List ℕ
  pub size : ℕ
  pub o : ℕ

abbrev pub buffer_in : List ℕ → BufferIn
buffer_in p = record { p = p; size = length p; o = 0 }

abbrev at : BufferIn → ℕ → ℕ
at b i = get_or b.p (b.o + i) 0

abbrev advance : BufferIn → ℕ → BufferIn
advance b n = record b { o = b.o + n }

unfoldable pub get_net_byte : BufferIn → Option (ℕ × BufferIn)
get_net_byte b = if ltb b.o b.size then some (at b 0, advance b 1) else none

unfoldable pub get_net_short : BufferIn → Option (ℕ × BufferIn)
get_net_short b =
    if ltb b.size (b.o + 2) then none else some (bit_or (shl (at b 0) 8) (at b 1), advance b 2)

unfoldable pub get_net_long : BufferIn → Option (ℕ × BufferIn)
get_net_long b =
    if ltb b.size (b.o + 4)
    then none
    else some (
      bit_or (bit_or (bit_or (shl (at b 0) 24) (shl (at b 1) 16)) (shl (at b 2) 8)) (at b 3),
      advance b 4,
    )

-- The loop of `::get_net_long_long` and of `get_variable_size_integer`, over given bytes.
unfoldable pub shift_in : ℕ → List ℕ → ℕ
shift_in out [] = out
shift_in out (x ∷ p) = shift_in (bit_or (u64 (shl out 8)) x) p

unfoldable pub get_net_long_long : BufferIn → Option (ℕ × BufferIn)
unfolding shift_in
get_net_long_long b =
    if ltb b.size (b.o + 8) then none else some (shift_in 0 (take 8 (drop b.o b.p)), advance b 8)

unfoldable pub get_segment : BufferIn → ℕ → Option (BufferIn × BufferIn)
get_segment b len =
    if ltb b.size (b.o + len)
    then none
    else some (record { p = drop b.o b.p; size = len; o = 0 }, advance b len)

unfoldable pub get_string : BufferIn → ℕ → Option (List ℕ × BufferIn)
get_string b len =
    if ltb b.size (b.o + len) then none else some (take len (drop b.o b.p), advance b len)

-- `get_bytes` returns a pointer: here the bytes from it on.
unfoldable pub get_bytes : BufferIn → ℕ → Option (List ℕ × BufferIn)
get_bytes b len = if ltb b.size (b.o + len) then none else some (drop b.o b.p, advance b len)

unfoldable pub seek : BufferIn → ℕ → Option BufferIn
seek b len = if ltb b.size (b.o + len) then none else some (advance b len)

unfoldable pub end_reached : BufferIn → Bool
end_reached b = b.o == b.size

unfoldable pub get_n_bytes_left : BufferIn → ℕ
get_n_bytes_left b = b.size - b.o

unfoldable pub peek : BufferIn → List ℕ
peek b = take (b.size - b.o) (drop b.o b.p)

-- `get_variable_size_integer`: the first byte that is not there ends it with an exception.
unfoldable pub get_variable_size_integer : BufferIn → ℕ → ℕ → Option (ℕ × BufferIn)
unfolding get_net_byte
get_variable_size_integer b zero out = some (out, b)
get_variable_size_integer b (suc len) out = elim (get_net_byte b) [
  | none ↦ none
  | some (x, b') ↦ get_variable_size_integer b' len (bit_or (u64 (shl out 8)) x)
]

-- The buffer of `buffer_out` is the list of its bytes.
abbrev pub BufferOut : Type 0
BufferOut = List ℕ

unfoldable pub add_net_byte : BufferOut → ℕ → BufferOut
add_net_byte out b = out ++ b ∷ []

unfoldable pub add_net_short : BufferOut → ℕ → BufferOut
add_net_short out s = out ++ u8 (shr s 8) ∷ u8 s ∷ []

unfoldable pub add_net_long : BufferOut → ℕ → BufferOut
add_net_long out l = out ++ u8 (shr l 24) ∷ u8 (shr l 16) ∷ u8 (shr l 8) ∷ u8 l ∷ []

-- With an offset the bytes are written over (`at` throws behind the end, after the bytes before it
-- have been written); the offset -1, here `none`, appends. The offset is returned.
unfoldable pub put_net_short : BufferOut → ℕ → Option ℕ → Option (BufferOut × ℕ)
unfolding add_net_short
put_net_short out s none = some (add_net_short out s, length out)
put_net_short out s (some i) =
    if ltb (i + 1) (length out)
    then some (set (set out i (u8 (shr s 8))) (i + 1) (u8 s), i)
    else none

unfoldable pub put_net_long : BufferOut → ℕ → Option ℕ → Option (BufferOut × ℕ)
unfolding add_net_long
put_net_long out l none = some (add_net_long out l, length out)
put_net_long out l (some i) =
    if ltb (i + 3) (length out)
    then some (
      set (set (set (set out i (u8 (shr l 24))) (i + 1) (u8 (shr l 16))) (i + 2) (u8 (shr l 8)))
          (i + 3) (u8 l),
      i,
    )
    else none

unfoldable pub add_buffer_out : BufferOut → BufferOut → BufferOut
add_buffer_out out o = out ++ o

-- `add_buffer_in` reads `n` bytes one by one.
unfoldable pub add_bytes_of : BufferOut → BufferIn → ℕ → Option (BufferOut × BufferIn)
add_bytes_of out b zero = some (out, b)
add_bytes_of out b (suc n) = elim (get_net_byte b) [
  | none ↦ none
  | some (x, b') ↦ add_bytes_of (out ++ x ∷ []) b' n
]

unfoldable pub add_buffer_in : BufferOut → BufferIn → Option (BufferOut × BufferIn)
unfolding add_bytes_of get_n_bytes_left
add_buffer_in out b = add_bytes_of out b (get_n_bytes_left b)

unfoldable pub add_padding : BufferOut → ℕ → BufferOut
add_padding out m =
    let padding = m - length out % m in if padding == m then out else out ++ replicate padding 0
