-- ===== src/Addr/Defs.antt =====
-- `any_addr` of any_addr.h and any_addr.cpp: an address of one of four families in a buffer of
-- 16 bytes. `assert` ends the process: the functions that assert return `none` then.
use Prim.Native.Nat.{compare, Ordering}
use myip.Base.{
  ℕ, zero, suc, ◌+◌, ◌≡◌, Bool, true, false, not, ◌&&◌, Option, none, some, List, [], ◌∷◌, ◌++◌,
  ltb, ◌==◌, if◌then◌else◌, length, get_or, take, drop, replicate, shl, bit_or,
}

-- `addr_family`, in the order of the enumeration.
pub data Family : Type 0 where
  ipv4 mac ax25 ipv6 : Family

abbrev pub rank : Family → ℕ
rank ipv4 = 0
rank mac = 1
rank ax25 = 2
rank ipv6 = 3

abbrev pub same_family : Family → Family → Bool
same_family f g = rank f == rank g

-- The number of bytes that `set` copies for a family.
abbrev pub src_size : Family → ℕ
src_size mac = 6
src_size ipv4 = 4
src_size ax25 = 7
src_size ipv6 = 16

abbrev pub any_addr_size : ℕ
any_addr_size = 16

pub record AnyAddr : Type 0 where
  pub af : Family
  pub addr : List ℕ
  pub addr_size : ℕ
  pub is_set : Bool

-- `any_addr()`
abbrev pub unset : AnyAddr
unset = record { af = mac; addr = replicate any_addr_size 0; addr_size = 0; is_set = false }

-- `memcpy(addr, src, n)`: the bytes behind the copied ones stay.
abbrev pub memcpy : List ℕ → List ℕ → ℕ → List ℕ
memcpy addr src n = take n src ++ drop n addr

unfoldable pub set : AnyAddr → Family → List ℕ → AnyAddr
set a f src = record a {
  addr = memcpy a.addr src (src_size f);
  addr_size = src_size f;
  af = f;
  is_set = true;
}

-- `any_addr(af, src)`
abbrev pub make : Family → List ℕ → AnyAddr
make f src = set unset f src

-- `get(tgt, tgt_size)`: the bytes that it copies out.
unfoldable pub get : AnyAddr → Option (List ℕ)
get a = if a.is_set then some (take a.addr_size a.addr) else none

-- `get(tgt, exp_size)`
unfoldable pub get_exactly : AnyAddr → ℕ → Option (List ℕ)
get_exactly a exp_size =
    if a.is_set && (exp_size == a.addr_size) then some (take exp_size a.addr) else none

-- The copy constructor and the assignments: a buffer is overwritten by the bytes of the other one.
unfoldable pub assign : AnyAddr → AnyAddr → Option AnyAddr
assign a other =
    if other.is_set
    then some (record {
      af = other.af;
      addr = memcpy a.addr other.addr other.addr_size;
      addr_size = other.addr_size;
      is_set = true;
    })
    else none

-- `memcmp(x, y, n)`, by the order of its result and 0.
unfoldable pub memcmp : ℕ → List ℕ → List ℕ → Ordering
memcmp zero xs ys = Ordering.eq
memcmp (suc n) [] ys = Ordering.eq
memcmp (suc n) (x ∷ xs) [] = Ordering.eq
memcmp (suc n) (x ∷ xs) (y ∷ ys) =
    let rest = memcmp n xs ys in
    elim (compare x y) [
      | Ordering.lt ↦ Ordering.lt
      | Ordering.eq ↦ rest
      | Ordering.gt ↦ Ordering.gt
    ]

abbrev pub is_eq : Ordering → Bool
is_eq Ordering.eq = true
is_eq Ordering.lt = false
is_eq Ordering.gt = false

abbrev pub is_lt : Ordering → Bool
is_lt Ordering.lt = true
is_lt Ordering.eq = false
is_lt Ordering.gt = false

-- What `compare_to` and `operator ==` compute behind their assertions.
unfoldable pub same_addr : AnyAddr → AnyAddr → Bool
unfolding memcmp
same_addr a other =
    if same_family other.af a.af then is_eq (memcmp a.addr_size other.addr a.addr) else false

unfoldable pub compare_to : AnyAddr → AnyAddr → Option Bool
unfolding same_addr
compare_to a other = if a.is_set && other.is_set then some (same_addr a other) else none

-- `operator <` behind its assertions: the order of the maps that have an address as key.
unfoldable pub precedes : AnyAddr → AnyAddr → Bool
unfolding memcmp
precedes a rhs =
    if not (same_family a.af rhs.af)
    then ltb (rank a.af) (rank rhs.af)
    else is_lt (memcmp rhs.addr_size a.addr rhs.addr)

unfoldable pub less : AnyAddr → AnyAddr → Option Bool
unfolding precedes
less a rhs = if a.is_set && rhs.is_set then some (precedes a rhs) else none

-- `operator[]`
unfoldable pub index : AnyAddr → ℕ → Option ℕ
index a i = if a.is_set && ltb i a.addr_size then some (get_or a.addr i 0) else none

-- `get_word`: two bytes, the first one high; its assertion is `nr < addr_size - 1`.
unfoldable pub get_word : AnyAddr → ℕ → Option ℕ
get_word a nr =
    if a.is_set && ltb (nr + 1) a.addr_size
    then some (bit_or (shl (get_or a.addr nr 0) 8) (get_or a.addr (nr + 1) 0))
    else none

-- The addresses that `set` makes of enough bytes.
pub record IsAddr (a : AnyAddr) : Type 0 where
  pub whole : length a.addr ≡ any_addr_size
  pub sized : a.addr_size ≡ src_size a.af
  pub present : a.is_set ≡ true

-- The bytes that count.
abbrev pub used : AnyAddr → List ℕ
used a = take a.addr_size a.addr
