-- ===== src/Snmp/Next.antt =====
-- `find_next_oid` of snmp_data.cpp.
use myip.Base.{
  ℕ, zero, suc, Bool, false, Option, none, some, List, [], ◌∷◌, ◌++◌, same_bytes, if◌then◌else◌,
}
use myip.Snmp.{Oid}
use myip.Snmp.Data.{Nodes, no_nodes, node}

-- The text of an object identifier: one that was read from a packet, or one of a node.
pub data Text : Type 0 where
  asked : (oid : Oid) → Text
  known : (oid : List ℕ) → Text

-- Its numbers. A text that begins with a dot has no node.
abbrev pub numbers : Text → Option (List ℕ)
numbers (known oid) = some oid
numbers (asked oid) = if oid.starts then some (1 ∷ 3 ∷ oid.arcs) else none

-- A child by its place in a vector: its identifier and its own children.
unfoldable pub child_at : ℕ → Nodes → Option (List ℕ × Nodes)
child_at i no_nodes = none
child_at zero (node oid v children next) = some (oid, children)
child_at (suc i) (node oid v children next) = child_at i next

unfoldable pub place_of : List ℕ → Nodes → Option ℕ
place_of oid no_nodes = none
place_of oid (node o v children next) =
    if same_bytes o oid
    then some 0
    else elim (place_of oid next) [ none ↦ none | some i ↦ some (suc i) ]

-- `parent`, null at the top, `p_lut`, and `branch` with its last element first: of an element that is not
-- null the children count.
pub record Place : Type 0 where
  pub parent : Option (List ℕ)
  pub p_lut : Nodes
  pub branch : List (Option Nodes × ℕ)

abbrev pub element_of : Place → Option Nodes
element_of pl = elim pl.parent [ none ↦ none | some oid ↦ some pl.p_lut ]

abbrev pub down : Place → ℕ → List ℕ × Nodes → Place
down pl idx (oid, children) = record {
  parent = some oid;
  p_lut = children;
  branch = (element_of pl, idx) ∷ pl.branch;
}

-- The loop over the parts behind `cur_oid`.
unfoldable pub along : List ℕ → List ℕ → Place → Place
unfolding place_of child_at
along cur_oid [] pl = pl
along cur_oid (part ∷ parts) pl = elim (place_of (cur_oid ++ part ∷ []) pl.p_lut) [
  | none ↦ pl
  | some idx ↦ elim (child_at idx pl.p_lut) [
    | none ↦ pl
    | some child ↦ along (cur_oid ++ part ∷ []) parts (down pl idx child)
  ]
]

-- "search for end of branch"
unfoldable pub to_end : Option (List ℕ) → Nodes → List (Option Nodes × ℕ) → Place
to_end parent no_nodes branch = record { parent = parent; p_lut = no_nodes; branch = branch }
to_end parent (node oid v children next) branch =
    let p_lut = node oid v children next in
    to_end (some oid) children ((elim parent [ none ↦ none | some o ↦ some p_lut ], 0) ∷ branch)

-- The first leaf below a node.
unfoldable pub leaf : List ℕ → Nodes → List ℕ
leaf oid no_nodes = oid
leaf oid (node o v children next) = leaf o children

-- "go to a sibbling": `none`: the empty text.
unfoldable pub sibling : List (Option Nodes × ℕ) → Option (List ℕ)
unfolding child_at leaf
sibling [] = none
sibling ((none, index) ∷ branch) = none
sibling ((some children, index) ∷ branch) = elim (child_at (suc index) children) [
  | none ↦ sibling branch
  | some (oid, kids) ↦ some (leaf oid kids)
]

-- The result: an identifier, the empty text, or that `parent` is used where it is null.
pub data Next : Type 0 where
  next_is : (oid : List ℕ) → Next
  at_end null_pointer : Next

abbrev pub next_of : Option (List ℕ) → Next
next_of none = at_end
next_of (some oid) = next_is oid

abbrev is_text : List ℕ → Option (List ℕ) → Bool
is_text oid none = false
is_text oid (some numbers) = same_bytes oid numbers

abbrev pub from_end : Option (List ℕ) → Place → Next
from_end oid pl = elim pl.parent [
  | none ↦ null_pointer
  | some o ↦ if is_text o oid then next_of (sibling ((some pl.p_lut, 0) ∷ pl.branch)) else next_is o
]

unfoldable pub find_next_oid : Text → Nodes → Next
unfolding along to_end sibling
find_next_oid oid data_ =
    let top : Place = record { parent = none; p_lut = data_; branch = [] } in
    let pl : Place = elim (numbers oid) [ none ↦ top | some parts ↦ along [] parts top ] in
    from_end (numbers oid) (to_end pl.parent pl.p_lut pl.branch)
