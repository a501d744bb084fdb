-- ===== src/Base/Bytes.antt =====
-- Sequences of bytes: their comparison, numbers in network order, and chains of steps that may fail.
use Prim.Native.Nat.{ℕ}
use mathlib.Core.Path.{◌≡◌, refl, ap₂}
use mathlib.Core.Bool.{Bool, true, false, ◌&&◌}
use mathlib.Core.Option.{Option, none, some, none-ne-some}
use mathlib.Core.List.{List, [], ◌∷◌}
use native.Mathlib.Omega.{arith}
use myip.Base.Tests.{◌==◌}
use myip.Base.Bits.{shr, u8}

infixl 5 ◌>>=◌
abbrev pub ◌>>=◌ {ℓ κ} : {A : Type ℓ} {B : Type κ} → Option A → (A → Option B) → Option B
none >>= f = none
some a >>= f = f a

-- What both steps of a chain gave.
pub bind-some {ℓ κ} :
    {A : Type ℓ} {B : Type κ} (o : Option A) (f : A → Option B) (b : B)
    → o >>= f ≡ some b
    → (a : A) × (o ≡ some a) × (f a ≡ some b)
bind-some none f b h = absurd (none-ne-some b h)
bind-some (some a) f b h = (a, refl, h)

unfoldable pub same_bytes : List ℕ → List ℕ → Bool
same_bytes [] [] = true
same_bytes [] (b ∷ q) = false
same_bytes (a ∷ p) [] = false
same_bytes (a ∷ p) (b ∷ q) = a == b && same_bytes p q

pub same_bytes_self : (p : List ℕ) → same_bytes p p ≡ true
unfolding same_bytes
same_bytes_self [] = refl
same_bytes_self (a ∷ p) = let ih = same_bytes_self p in ground arith

pub same_bytes→eq : (p q : List ℕ) → same_bytes p q ≡ true → p ≡ q
unfolding same_bytes
same_bytes→eq [] [] h = refl
same_bytes→eq [] (b ∷ q) h = ground arith
same_bytes→eq (a ∷ p) [] h = ground arith
same_bytes→eq (a ∷ p) (b ∷ q) h =
    ap₂ (λ x t. x ∷ t) (ground arith) (same_bytes→eq p q (ground arith))

abbrev pub be16 : ℕ → List ℕ
be16 s = u8 (shr s 8) ∷ u8 s ∷ []

abbrev pub be32 : ℕ → List ℕ
be32 l = u8 (shr l 24) ∷ u8 (shr l 16) ∷ u8 (shr l 8) ∷ u8 l ∷ []
