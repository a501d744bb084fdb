-- ===== src/Dns/Names.antt =====
-- The names in the packets of dns.cpp.
use myip.Base.{
  ◌-◌, ℕ, zero, suc, ◌+◌, ◌≡◌, ◌<◌, refl, sym, ap, ap₂, ◌∙◌, false, none, some, List, [], ◌∷◌, ◌++◌,
  ◌==◌, ltb, leb, arith, length, take, drop, u8, All, take-append, drop-append, append_assoc,
  append-nil, length-append,
}
use myip.Dns.{labels, get_name, without_dot}
use myip.Dns.Query.{name_bytes, split, split_from}

-- A part of a name: not empty, of at most 63 characters, none of them a dot.
abbrev pub IsLabel : List ℕ → Type 0
IsLabel part = (0 < length part) × (length part < 64) × All (λ (c : ℕ). (c == 46) ≡ false) part

-- The text of a name, with a dot behind each part.
abbrev pub dotted : List (List ℕ) → List ℕ
dotted [] = []
dotted (part ∷ parts) = part ++ 46 ∷ dotted parts

labels-step :
    (fuel : ℕ) (part rest name : List ℕ) (tl : ℕ)
    → IsLabel part
    → labels (suc fuel) (u8 (length part) ∷ (part ++ rest)) name tl
      ≡ labels fuel rest (name ++ (part ++ 46 ∷ [])) (tl + 1 + length part)
unfolding labels
labels-step fuel part rest name tl (h, k, d) =
    let n : u8 (length part) ≡ length part = omega arith in
    let nonzero : (length part == 0) ≡ false = ground arith in
    let small : leb 64 (length part) ≡ false = ground arith in
    let there : ltb (length (part ++ rest)) (length part) ≡ false =
      ground (arith, length-append part rest) in
    rw (n, nonzero, small, there, take-append part rest, drop-append part rest) refl

-- The labels of a name that was written, whatever follows.
pub labels-name_bytes :
    (fuel : ℕ) (parts : List (List ℕ)) (rest name : List ℕ) (tl : ℕ)
    → All IsLabel parts
    → length (name_bytes parts) < fuel
    → labels fuel (name_bytes parts ++ 0 ∷ rest) name tl
      ≡ some (name ++ dotted parts, tl + length (name_bytes parts) + 1, none)
unfolding labels name_bytes
labels-name_bytes zero parts rest name tl a h = absurd (omega arith)
labels-name_bytes (suc fuel) [] rest name tl a h =
    ap₂ (λ (t : List ℕ) (m : ℕ). some (t, m, none)) (sym (append-nil name)) (omega arith)
labels-name_bytes (suc fuel) (part ∷ parts) rest name tl (p, a) h =
    let shorter : length (name_bytes parts) < fuel =
      omega (arith, length-append part (name_bytes parts)) in
    let total : tl + 1 + length part + length (name_bytes parts) + 1
        ≡ tl + length (name_bytes (part ∷ parts)) + 1 =
      omega (arith, length-append part (name_bytes parts)) in
    ap (λ t. labels (suc fuel) (u8 (length part) ∷ t) name tl)
      (append_assoc part (name_bytes parts) (0 ∷ rest))
    ∙ labels-step fuel part (name_bytes parts ++ 0 ∷ rest) name tl p
    ∙ labels-name_bytes fuel parts rest (name ++ (part ++ 46 ∷ [])) (tl + 1 + length part) a shorter
    ∙ ap₂ (λ (t : List ℕ) (m : ℕ). some (t, m, none))
        (append_assoc name (part ++ 46 ∷ []) (dotted parts)
          ∙ ap (λ t. name ++ t) (append_assoc part (46 ∷ []) (dotted parts)))
        total

-- A name that a request has is read where it stands, each of its parts with a dot behind it.
pub get_name-name_bytes :
    (p : List ℕ) (o : ℕ) (parts : List (List ℕ)) (rest : List ℕ)
    → All IsLabel parts
    → drop o p ≡ name_bytes parts ++ 0 ∷ rest
    → get_name p o ≡ some (dotted parts, length (name_bytes parts) + 1)
unfolding get_name
get_name-name_bytes p o parts rest a h =
    let whole : 0 + length (name_bytes parts) + 1 ≡ length (name_bytes parts) + 1 = omega arith in
    let size : length (drop o p) ≡ length (name_bytes parts ++ 0 ∷ rest) = ap length h in
    rw
      (
        get_name,
        h,
        labels-name_bytes (length (drop o p)) parts rest [] 0 a
            (omega (arith, length-append (name_bytes parts) (0 ∷ rest))),
      )
      (ap (λ (m : ℕ). some (dotted parts, m)) whole)

-- The parts with dots between them.
abbrev pub joined : List (List ℕ) → List ℕ
joined [] = []
joined (part ∷ []) = part
joined (part ∷ next ∷ parts) = part ++ 46 ∷ joined (next ∷ parts)

split_from-part :
    (before : List ℕ) (c : ℕ) (part : List ℕ)
    → All (λ (c : ℕ). (c == 46) ≡ false) (c ∷ part)
    → split_from 46 before (c ∷ part) ≡ (before ++ c ∷ part) ∷ []
unfolding split_from
split_from-part before c [] (h, a) = rw h refl
split_from-part before c (d ∷ part) (h, a) = rw h (
    split_from-part (before ++ c ∷ []) d part a
    ∙ ap (λ t. t ∷ []) (append_assoc before (c ∷ []) (d ∷ part)))

split_from-dot :
    (before part : List ℕ) (c : ℕ) (rest : List ℕ)
    → All (λ (c : ℕ). (c == 46) ≡ false) part
    → split_from 46 before (part ++ 46 ∷ c ∷ rest) ≡ (before ++ part) ∷ split_from 46 [] (c ∷ rest)
unfolding split_from
split_from-dot before [] c rest a =
    ap (λ t. t ∷ split_from 46 [] (c ∷ rest)) (sym (append-nil before))
split_from-dot before (x ∷ []) c rest (h, a) = rw h (
    split_from-dot (before ++ x ∷ []) [] c rest a
    ∙ ap (λ t. t ∷ split_from 46 [] (c ∷ rest)) (append-nil (before ++ x ∷ [])))
split_from-dot before (x ∷ y ∷ part) c rest (h, a) = rw h (
    split_from-dot (before ++ x ∷ []) (y ∷ part) c rest a
    ∙ ap (λ t. t ∷ split_from 46 [] (c ∷ rest)) (append_assoc before (x ∷ []) (y ∷ part)))

-- A text of parts without dots is split into them.
pub split-joined : (parts : List (List ℕ)) → All IsLabel parts → split 46 (joined parts) ≡ parts
unfolding split split_from
split-joined [] a = refl
split-joined ([] ∷ parts) ((h, k, d), a) = absurd (omega arith)
split-joined ((c ∷ part) ∷ []) ((h, k, d), a) = split_from-part [] c part d
split-joined ((c ∷ part) ∷ [] ∷ parts) (p, ((h, k, d), a)) = absurd (omega arith)
split-joined ((c ∷ part) ∷ (b ∷ next) ∷ []) ((h, k, d), a) =
    split_from-dot [] (c ∷ part) b next d
    ∙ ap (λ t. (c ∷ part) ∷ t) (split-joined ((b ∷ next) ∷ []) a)
split-joined ((c ∷ part) ∷ (b ∷ next) ∷ q ∷ parts) ((h, k, d), a) =
    split_from-dot [] (c ∷ part) b (next ++ 46 ∷ joined (q ∷ parts)) d
    ∙ ap (λ t. (c ∷ part) ∷ t) (split-joined ((b ∷ next) ∷ q ∷ parts) a)

dotted-joined :
    (part : List ℕ) (parts : List (List ℕ))
    → dotted (part ∷ parts) ≡ joined (part ∷ parts) ++ 46 ∷ []
dotted-joined part [] = refl
dotted-joined part (next ∷ parts) =
    ap (λ t. part ++ 46 ∷ t) (dotted-joined next parts)
    ∙ sym (append_assoc part (46 ∷ joined (next ∷ parts)) (46 ∷ []))

-- A name without its last dot.
pub without_dot-dotted : (parts : List (List ℕ)) → without_dot (dotted parts) ≡ joined parts
without_dot-dotted [] = refl
without_dot-dotted (part ∷ parts) =
    let text : List ℕ = joined (part ∷ parts) in
    let size : length (text ++ 46 ∷ []) - 1 ≡ length text =
      omega (arith, length-append text (46 ∷ [])) in
    ap without_dot (dotted-joined part parts)
    ∙ ap (λ (n : ℕ). take n (text ++ 46 ∷ [])) size
    ∙ take-append text (46 ∷ [])
