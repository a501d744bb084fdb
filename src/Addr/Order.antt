-- ===== src/Addr/Order.antt =====
-- `set`, `get`, `compare_to` and `operator <` of any_addr.cpp: what they promise to the maps.
use Prim.Native.Nat.{Ordering}
use myip.Base.{
  ℕ, zero, suc, ◌≤◌, ◌≡◌, refl, ap, ◌∙◌, ◌↔◌, true, not, ◌&&◌, some, List, [], ◌∷◌, ◌++◌, arith,
  length, take, drop, length-append, length-take, length-drop,
}
use myip.Addr.Defs.{
  Family, AnyAddr, ipv4, mac, ax25, ipv6, make, IsAddr, rank, src_size, any_addr_size, set, get,
  memcmp, is_eq, is_lt, same_addr, compare_to, precedes, used,
}

rank-injective : (f g : Family) → rank f ≡ rank g → f ≡ g
rank-injective f g h = ground arith

src_size-le : (f : Family) → src_size f ≤ any_addr_size
src_size-le f = ground arith

take-memcpy :
    (n : ℕ) (src rest : List ℕ) → n ≤ length src → take n (take n src ++ rest) ≡ take n src
take-memcpy zero src rest h = refl
take-memcpy (suc n) [] rest h = absurd (omega arith)
take-memcpy (suc n) (x ∷ src) rest h = ap (λ t. x ∷ t) (take-memcpy n src rest (omega arith))

length-memcpy :
    (n : ℕ) (src old : List ℕ)
    → n ≤ length src
    → n ≤ length old
    → length (take n src ++ drop n old) ≡ length old
length-memcpy n src old h k =
    omega (arith, length-append (take n src) (drop n old), length-take n src, length-drop n old)

-- With at least as many bytes as the family has, `set` makes a well-formed address, and `get`
-- then returns exactly the first of them, whatever the address held before.
pub get-set :
    (a : AnyAddr) (f : Family) (src : List ℕ)
    → length a.addr ≡ any_addr_size
    → src_size f ≤ length src
    → IsAddr (set a f src) × (get (set a f src) ≡ some (take (src_size f) src))
unfolding set get
get-set a f src h enough = (
  record {
    whole = length-memcpy (src_size f) src a.addr enough (omega (arith, src_size-le f)) ∙ h;
    sized = refl;
    present = refl;
  },
  ap some (take-memcpy (src_size f) src (drop (src_size f) a.addr) enough),
)

memcmp-eq_iff :
    (n : ℕ) (xs ys : List ℕ)
    → n ≤ length xs
    → n ≤ length ys
    → (is_eq (memcmp n xs ys) ≡ true) ↔ (take n xs ≡ take n ys)
unfolding memcmp
memcmp-eq_iff zero xs ys h k = (λ _. refl, λ _. refl)
memcmp-eq_iff (suc n) [] ys h k = absurd (omega arith)
memcmp-eq_iff (suc n) (x ∷ xs) [] h k = absurd (omega arith)
memcmp-eq_iff (suc n) (x ∷ xs) (y ∷ ys) h k =
    ground (arith, memcmp-eq_iff n xs ys (omega arith) (omega arith))

-- The comparison of two buffers by `memcmp`, seen from the other side.
memcmp-flip : (n : ℕ) (xs ys : List ℕ) → is_eq (memcmp n xs ys) ≡ is_eq (memcmp n ys xs)
unfolding memcmp
memcmp-flip zero xs ys = refl
memcmp-flip (suc n) [] [] = refl
memcmp-flip (suc n) [] (y ∷ ys) = refl
memcmp-flip (suc n) (x ∷ xs) [] = refl
memcmp-flip (suc n) (x ∷ xs) (y ∷ ys) = ground (arith, memcmp-flip n xs ys)

memcmp-trichotomy :
    (n : ℕ) (xs ys : List ℕ)
    → (not (is_lt (memcmp n xs ys)) && not (is_lt (memcmp n ys xs))) ≡ is_eq (memcmp n xs ys)
unfolding memcmp
memcmp-trichotomy zero xs ys = refl
memcmp-trichotomy (suc n) [] [] = refl
memcmp-trichotomy (suc n) [] (y ∷ ys) = refl
memcmp-trichotomy (suc n) (x ∷ xs) [] = refl
memcmp-trichotomy (suc n) (x ∷ xs) (y ∷ ys) = ground (arith, memcmp-trichotomy n xs ys)

memcmp-lt_trans :
    (n : ℕ) (xs ys zs : List ℕ)
    → n ≤ length xs
    → n ≤ length ys
    → n ≤ length zs
    → is_lt (memcmp n xs ys) ≡ true
    → is_lt (memcmp n ys zs) ≡ true
    → is_lt (memcmp n xs zs) ≡ true
unfolding memcmp
memcmp-lt_trans zero xs ys zs a b c p q = p
memcmp-lt_trans (suc n) [] ys zs a b c p q = absurd (omega arith)
memcmp-lt_trans (suc n) (x ∷ xs) [] zs a b c p q = absurd (omega arith)
memcmp-lt_trans (suc n) (x ∷ xs) (y ∷ ys) [] a b c p q = absurd (omega arith)
memcmp-lt_trans (suc n) (x ∷ xs) (y ∷ ys) (z ∷ zs) a b c p q =
    ground (arith, memcmp-lt_trans n xs ys zs (omega arith) (omega arith) (omega arith))

-- Two well-formed addresses are the same exactly if their families and their bytes are.
same_addr_iff :
    {a b : AnyAddr}
    → IsAddr a
    → IsAddr b
    → (same_addr a b ≡ true) ↔ ((b.af ≡ a.af) × (used b ≡ used a))
unfolding same_addr
same_addr_iff {a} {b} v w = ground (
  arith,
  rank-injective b.af a.af,
  src_size-le a.af,
  src_size-le b.af,
  v.whole,
  w.whole,
  v.sized,
  w.sized,
  memcmp-eq_iff a.addr_size b.addr a.addr,
)

-- `compare_to` of two well-formed addresses does not fail an assertion, and returns true exactly
-- if they have one family and the same bytes of it; what stands behind those bytes is not read.
pub compare_to_iff :
    {a b : AnyAddr}
    → IsAddr a
    → IsAddr b
    → (compare_to a b ≡ some true) ↔ ((b.af ≡ a.af) × (used b ≡ used a))
unfolding compare_to
compare_to_iff {a} {b} v w = ground (arith, v.present, w.present, same_addr_iff v w)

-- The keys of a `std::map` that neither precedes the other are the same to the map: for
-- well-formed addresses these are the ones that `operator ==` calls equal. So the maps and the
-- comparisons of the program agree.
pub precedes-same_addr :
    {a b : AnyAddr}
    → IsAddr a
    → IsAddr b
    → (not (precedes a b) && not (precedes b a)) ≡ same_addr a b
unfolding precedes same_addr
precedes-same_addr {a} {b} v w = ground (
  arith,
  rank-injective a.af b.af,
  v.sized,
  w.sized,
  memcmp-trichotomy a.addr_size a.addr b.addr,
  memcmp-flip a.addr_size a.addr b.addr,
)

-- `operator <` is transitive on well-formed addresses.
pub precedes_trans :
    {a b c : AnyAddr}
    → IsAddr a
    → IsAddr b
    → IsAddr c
    → precedes a b ≡ true
    → precedes b c ≡ true
    → precedes a c ≡ true
unfolding precedes
precedes_trans {a} {b} {c} u v w p q = ground (
  arith,
  rank-injective a.af b.af,
  rank-injective b.af c.af,
  src_size-le c.af,
  u.sized,
  v.sized,
  w.sized,
  u.whole,
  v.whole,
  w.whole,
  memcmp-lt_trans c.addr_size a.addr b.addr c.addr,
)

-- An address is the same as itself.
pub memcmp_self : (n : ℕ) (xs : List ℕ) → memcmp n xs xs ≡ Ordering.eq
unfolding memcmp
memcmp_self zero xs = refl
memcmp_self (suc n) [] = refl
memcmp_self (suc n) (x ∷ xs) = ground (arith, memcmp_self n xs)

pub same_make : (f : Family) (x : List ℕ) → same_addr (make f x) (make f x) ≡ true
unfolding same_addr set
same_make ipv4 x = ap is_eq (memcmp_self 4 (make ipv4 x).addr)
same_make mac x = ap is_eq (memcmp_self 6 (make mac x).addr)
same_make ax25 x = ap is_eq (memcmp_self 7 (make ax25 x).addr)
same_make ipv6 x = ap is_eq (memcmp_self 16 (make ipv6 x).addr)
