-- ===== src/Snmp/Data.antt =====
-- The tree of the values of snmp_data.cpp. The text of an object identifier is the list of its numbers,
-- each below 2^31.
use myip.Base.{
  ℕ, ◌+◌, ◌-◌, ◌/◌, Option, none, some, List, [], ◌∷◌, ◌++◌, ltb, if◌then◌else◌, u64, same_bytes,
}
use myip.Snmp.{widened, IntegerType, si_integer, si_ticks}

-- The elements of snmp_elem.h that values are given back as.
pub data Element : Type 0 where
  snmp_integer : (type : IntegerType) → (v : ℕ) → Element
  snmp_octet_string : (v : List ℕ) → Element
  snmp_oid : (oid : List ℕ) → Element

-- The classes of nodes: an inner node, a static text or number, a counter by its address, the time since
-- a start in hundredths of a second, and an object identifier.
pub data Value : Type 0 where
  inner : Value
  static_text : (content : List ℕ) → Value
  static_number : (type : IntegerType) → (content : ℕ) → Value
  stats : (type : IntegerType) → (counter : ℕ) → Value
  running_since : (since : ℕ) → Value
  identifier : (oid : List ℕ) → Value

-- What a value is read from: the time and the counters.
pub record Surroundings : Type 0 where
  pub now_us : ℕ
  pub counter : ℕ → ℕ

-- `get_data`; `none`: a null pointer. The type of a static number is not used.
unfoldable pub get_data : Surroundings → Value → Option Element
get_data s inner = none
get_data s (static_text content) = some (snmp_octet_string content)
get_data s (static_number type content) = some (snmp_integer si_integer (widened content))
get_data s (stats type counter) = some (snmp_integer type (s.counter counter))
get_data s (running_since since) =
    some (snmp_integer si_ticks (u64 (s.now_us / 10000 + (0x10000000000000000 - since))))
get_data s (identifier oid) = some (snmp_oid oid)

-- The children of a node: each with its identifier, its value and its own children.
pub data Nodes : Type 0 where
  no_nodes : Nodes
  node : (oid : List ℕ) → (data_ : Value) → (children next : Nodes) → Nodes

-- `set_tree_data`: the number behind the last dot; 0 without a dot.
abbrev pub last_number : List ℕ → ℕ
last_number [] = 0
last_number (n ∷ []) = n
last_number (n ∷ m ∷ rest) = last_number (m ∷ rest)

abbrev pub oid_idx : List ℕ → ℕ
oid_idx [] = 0
oid_idx (n ∷ []) = 0
oid_idx (n ∷ m ∷ rest) = last_number (m ∷ rest)

-- `find_oid_in_vector`: whether there is such a node, and its value and children.
unfoldable pub find_oid : Nodes → List ℕ → Option (Value × Nodes)
find_oid no_nodes oid = none
find_oid (node o v children next) oid =
    if same_bytes o oid then some (v, children) else find_oid next oid

-- The insertion before the first node with a greater number.
unfoldable pub insert_node : List ℕ → Value → Nodes → Nodes → Nodes
insert_node oid v children no_nodes = node oid v children no_nodes
insert_node oid v children (node o w kids next) =
    let rest = insert_node oid v children next in
    if ltb (oid_idx oid) (oid_idx o)
    then node oid v children (node o w kids next)
    else node o w kids rest

-- The children of the first node with an identifier, changed.
unfoldable pub change_children : List ℕ → (Nodes → Nodes) → Nodes → Nodes
change_children oid change no_nodes = no_nodes
change_children oid change (node o v children next) =
    let rest = change_children oid change next in
    if same_bytes o oid then node o v (change children) next else node o v children rest

-- The loop of `register_oid` behind the parts `cur_oid`. A node that is there already keeps its value.
unfoldable pub register_from : List ℕ → List ℕ → Value → Nodes → Nodes
unfolding find_oid insert_node change_children
register_from cur_oid [] e nodes = nodes
register_from cur_oid (part ∷ parts) e nodes =
    let oid = cur_oid ++ part ∷ [] in
    let value : Value = elim parts [ [] ↦ e | q ∷ qs ↦ inner ] in
    elim (find_oid nodes oid) [
      | none ↦ insert_node oid value (register_from oid parts e no_nodes) nodes
      | some found ↦ change_children oid (register_from oid parts e) nodes
    ]

unfoldable pub register_oid : List ℕ → Value → Nodes → Nodes
unfolding register_from
register_oid oid e data_ = register_from [] oid e data_

-- The loop of `find_by_oid`.
unfoldable pub find_from : List ℕ → List ℕ → Nodes → Option Value
unfolding find_oid
find_from cur_oid [] nodes = none
find_from cur_oid (part ∷ parts) nodes = elim (find_oid nodes (cur_oid ++ part ∷ [])) [
  | none ↦ none
  | some (v, children) ↦ elim parts [
    | [] ↦ some v
    | q ∷ qs ↦ find_from (cur_oid ++ part ∷ []) parts children
  ]
]

unfoldable pub find_by_oid : List ℕ → Nodes → Option Value
unfolding find_from
find_by_oid oid data_ = find_from [] oid data_
