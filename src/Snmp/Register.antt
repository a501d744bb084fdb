-- ===== src/Snmp/Register.antt =====
-- The registration of identifiers in the tree of snmp_data.cpp.
use myip.Base.{
  ℕ, ◌≡◌, refl, sym, ap, ◌∙◌, subst, true, false, Bool-cases, inl, inr, Option-cases, none, some,
  List, [], ◌∷◌, ◌++◌, ◌==◌, ltb, arith, same_bytes, same_bytes_self, same_bytes→eq,
}
use mathlib.Core.Option.{none-ne-some, some-injective}
use myip.Snmp.Data.{
  Value, inner, Nodes, no_nodes, node, oid_idx, find_oid, insert_node, change_children,
  register_from, register_oid, find_from, find_by_oid,
}

same_bytes-other :
    (cur : List ℕ) (p a : ℕ) → (p == a) ≡ false → same_bytes (cur ++ p ∷ []) (cur ++ a ∷ []) ≡ false
unfolding same_bytes
same_bytes-other [] p a h = ground arith
same_bytes-other (x ∷ cur) p a h = let ih = same_bytes-other cur p a h in ground arith

find_oid-here :
    (o oid : List ℕ) (v : Value) (kids next : Nodes)
    → same_bytes o oid ≡ true
    → find_oid (node o v kids next) oid ≡ some (v, kids)
unfolding find_oid
find_oid-here o oid v kids next h = rw h refl

find_oid-there :
    (o oid : List ℕ) (v : Value) (kids next : Nodes)
    → same_bytes o oid ≡ false
    → find_oid (node o v kids next) oid ≡ find_oid next oid
unfolding find_oid
find_oid-there o oid v kids next h = rw h refl

find_oid-nothing : (oid : List ℕ) → find_oid no_nodes oid ≡ none
unfolding find_oid
find_oid-nothing oid = refl

find_oid-insert_node :
    (oid : List ℕ) (v : Value) (kids nodes : Nodes)
    → find_oid nodes oid ≡ none
    → find_oid (insert_node oid v kids nodes) oid ≡ some (v, kids)
unfolding find_oid insert_node
find_oid-insert_node oid v kids no_nodes h = rw (same_bytes_self oid) refl
find_oid-insert_node oid v kids (node o w k next) h =
    elim (Bool-cases (ltb (oid_idx oid) (oid_idx o))) [
      | inl before ↦ rw (before, same_bytes_self oid) refl
      | inr behind ↦ elim (Bool-cases (same_bytes o oid)) [
        | inl same ↦ absurd (none-ne-some (w, k) (sym h ∙ find_oid-here o oid w k next same))
        | inr other ↦
            rw (behind, other)
              (find_oid-insert_node oid v kids next (sym (find_oid-there o oid w k next other) ∙ h))
      ]
    ]

find_oid-insert_other :
    (oid o : List ℕ) (v : Value) (kids nodes : Nodes)
    → same_bytes oid o ≡ false
    → find_oid (insert_node oid v kids nodes) o ≡ find_oid nodes o
unfolding find_oid insert_node
find_oid-insert_other oid o v kids no_nodes h = rw h refl
find_oid-insert_other oid o v kids (node o' w k next) h =
    elim (Bool-cases (ltb (oid_idx oid) (oid_idx o'))) [
      | inl before ↦ rw (before, h) refl
      | inr behind ↦ elim (Bool-cases (same_bytes o' o)) [
        | inl same ↦ rw (behind, same) refl
        | inr other ↦ rw (behind, other) (find_oid-insert_other oid o v kids next h)
      ]
    ]

find_oid-change_children :
    (oid : List ℕ) (change : Nodes → Nodes) (nodes : Nodes) (v : Value) (kids : Nodes)
    → find_oid nodes oid ≡ some (v, kids)
    → find_oid (change_children oid change nodes) oid ≡ some (v, change kids)
unfolding find_oid change_children
find_oid-change_children oid change no_nodes v kids h = absurd (none-ne-some (v, kids) h)
find_oid-change_children oid change (node o w k next) v kids h =
    elim (Bool-cases (same_bytes o oid)) [
      | inl same ↦ rw same (
          let e = some-injective _ _ (sym (find_oid-here o oid w k next same) ∙ h) in
          find_oid-here o oid w (change k) next same
          ∙ ap (λ (x : Value × Nodes). some (x.0, change x.1)) e)
      | inr other ↦
          rw (other, other)
            (find_oid-change_children oid change next v kids
              (sym (find_oid-there o oid w k next other) ∙ h))
    ]

find_oid-change_other :
    (oid o : List ℕ) (change : Nodes → Nodes) (nodes : Nodes)
    → same_bytes oid o ≡ false
    → find_oid (change_children oid change nodes) o ≡ find_oid nodes o
unfolding find_oid change_children
find_oid-change_other oid o change no_nodes h = refl
find_oid-change_other oid o change (node o' w k next) h = elim (Bool-cases (same_bytes o' oid)) [
  | inl same ↦
      let differs : same_bytes o' o ≡ false =
        ap (λ (x : List ℕ). same_bytes x o) (same_bytes→eq o' oid same) ∙ h in
      rw (same, differs) refl
  | inr other ↦ elim (Bool-cases (same_bytes o' o)) [
    | inl here ↦ rw (other, here) refl
    | inr there ↦ rw (other, there) (find_oid-change_other oid o change next h)
  ]
]

-- What the loop finds behind a part.
find_from-step :
    (cur : List ℕ) (part : ℕ) (parts : List ℕ) (nodes : Nodes) (v : Value) (kids : Nodes)
    → find_oid nodes (cur ++ part ∷ []) ≡ some (v, kids)
    → find_from cur (part ∷ parts) nodes
      ≡ elim parts [ [] ↦ some v | q ∷ qs ↦ find_from (cur ++ part ∷ []) (q ∷ qs) kids ]
unfolding find_from
find_from-step cur part [] nodes v kids h = rw (find_from, h) refl
find_from-step cur part (q ∷ qs) nodes v kids h = rw (find_from, h) refl

find_from-missing :
    (cur : List ℕ) (part : ℕ) (parts : List ℕ) (nodes : Nodes)
    → find_oid nodes (cur ++ part ∷ []) ≡ none
    → find_from cur (part ∷ parts) nodes ≡ none
unfolding find_from
find_from-missing cur part parts nodes h = rw (find_from, h) refl

register_from-new :
    (cur : List ℕ) (part : ℕ) (parts : List ℕ) (e : Value) (nodes : Nodes)
    → find_oid nodes (cur ++ part ∷ []) ≡ none
    → register_from cur (part ∷ parts) e nodes
      ≡ insert_node
          (cur ++ part ∷ [])
          (elim parts [ [] ↦ e | q ∷ qs ↦ inner ])
          (register_from (cur ++ part ∷ []) parts e no_nodes)
          nodes
unfolding register_from
register_from-new cur part parts e nodes h = rw (register_from, h) refl

register_from-old :
    (cur : List ℕ) (part : ℕ) (parts : List ℕ) (e : Value) (nodes : Nodes) (found : Value × Nodes)
    → find_oid nodes (cur ++ part ∷ []) ≡ some found
    → register_from cur (part ∷ parts) e nodes
      ≡ change_children (cur ++ part ∷ []) (register_from (cur ++ part ∷ []) parts e) nodes
unfolding register_from
register_from-old cur part parts e nodes found h = rw (register_from, h) refl

find_from-register_from :
    (parts cur : List ℕ) (part : ℕ) (e : Value) (nodes : Nodes)
    → find_from cur (part ∷ parts) nodes ≡ none
    → find_from cur (part ∷ parts) (register_from cur (part ∷ parts) e nodes) ≡ some e
find_from-register_from [] cur part e nodes h =
    elim (Option-cases (find_oid nodes (cur ++ part ∷ []))) [
      | inl new ↦
          ap (find_from cur (part ∷ [])) (register_from-new cur part [] e nodes new)
          ∙ find_from-step cur part [] _ e _ (find_oid-insert_node (cur ++ part ∷ []) e _ nodes new)
      | inr ((v, kids), old) ↦
          absurd (none-ne-some v (sym h ∙ find_from-step cur part [] nodes v kids old))
    ]
find_from-register_from (q ∷ qs) cur part e nodes h =
    let oid : List ℕ = cur ++ part ∷ [] in
    elim (Option-cases (find_oid nodes oid)) [
      | inl new ↦
          ap (find_from cur (part ∷ q ∷ qs)) (register_from-new cur part (q ∷ qs) e nodes new)
          ∙ find_from-step cur part (q ∷ qs) _ inner _ (find_oid-insert_node oid inner _ nodes new)
          ∙ find_from-register_from qs oid q e no_nodes
              (find_from-missing oid q qs no_nodes (find_oid-nothing (oid ++ q ∷ [])))
      | inr ((v, kids), old) ↦
          ap (find_from cur (part ∷ q ∷ qs))
            (register_from-old cur part (q ∷ qs) e nodes (v, kids) old)
          ∙ find_from-step cur part (q ∷ qs) _ v _ (find_oid-change_children oid _ nodes v kids old)
          ∙ find_from-register_from qs oid q e kids
              (sym (find_from-step cur part (q ∷ qs) nodes v kids old) ∙ h)
    ]

find_oid-replaced :
    (cur : List ℕ) (p : ℕ) (parts : List ℕ) (e : Value) (nodes : Nodes) (o : List ℕ)
    → same_bytes (cur ++ p ∷ []) o ≡ false
    → find_oid (register_from cur (p ∷ parts) e nodes) o ≡ find_oid nodes o
find_oid-replaced cur p parts e nodes o h = elim (Option-cases (find_oid nodes (cur ++ p ∷ []))) [
  | inl new ↦
      ap (λ (t : Nodes). find_oid t o) (register_from-new cur p parts e nodes new)
      ∙ find_oid-insert_other (cur ++ p ∷ []) o _ _ nodes h
  | inr (found, old) ↦
      ap (λ (t : Nodes). find_oid t o) (register_from-old cur p parts e nodes found old)
      ∙ find_oid-change_other (cur ++ p ∷ []) o _ nodes h
]

module _ (e : Value) (nodes : Nodes) (cur : List ℕ) (p : ℕ) (parts : List ℕ) (v : Value) where
  abbrev after : Nodes
  after = register_from cur (p ∷ parts) e nodes

  kept_last : find_from cur (p ∷ []) nodes ≡ some v → find_from cur (p ∷ []) after ≡ some v
  kept_last h = elim (Option-cases (find_oid nodes (cur ++ p ∷ []))) [
    | inl new ↦ absurd (none-ne-some v (sym (find_from-missing cur p [] nodes new) ∙ h))
    | inr ((w, kids), old) ↦
        ap (find_from cur (p ∷ [])) (register_from-old cur p parts e nodes (w, kids) old)
        ∙ find_from-step cur p [] _ w _
            (find_oid-change_children (cur ++ p ∷ []) _ nodes w kids old)
        ∙ sym (find_from-step cur p [] nodes w kids old)
        ∙ h
  ]

  kept_below :
      (q : ℕ) (qs : List ℕ)
      → ((kids : Nodes)
          → find_from (cur ++ p ∷ []) (q ∷ qs) kids ≡ some v
          → find_from (cur ++ p ∷ []) (q ∷ qs) (register_from (cur ++ p ∷ []) parts e kids)
            ≡ some v)
      → find_from cur (p ∷ q ∷ qs) nodes ≡ some v
      → find_from cur (p ∷ q ∷ qs) after ≡ some v
  kept_below q qs ih h = elim (Option-cases (find_oid nodes (cur ++ p ∷ []))) [
    | inl new ↦ absurd (none-ne-some v (sym (find_from-missing cur p (q ∷ qs) nodes new) ∙ h))
    | inr ((w, kids), old) ↦
        ap (find_from cur (p ∷ q ∷ qs)) (register_from-old cur p parts e nodes (w, kids) old)
        ∙ find_from-step cur p (q ∷ qs) _ w _
            (find_oid-change_children (cur ++ p ∷ []) _ nodes w kids old)
        ∙ ih kids (sym (find_from-step cur p (q ∷ qs) nodes w kids old) ∙ h)
  ]

  kept_beside :
      (a : ℕ) (rest : List ℕ)
      → (p == a) ≡ false
      → find_from cur (a ∷ rest) nodes ≡ some v
      → find_from cur (a ∷ rest) after ≡ some v
  kept_beside a rest ne h =
      let same =
        find_oid-replaced cur p parts e nodes (cur ++ a ∷ []) (same_bytes-other cur p a ne) in
      elim (Option-cases (find_oid nodes (cur ++ a ∷ []))) [
        | inl missing ↦
            absurd (none-ne-some v (sym (find_from-missing cur a rest nodes missing) ∙ h))
        | inr ((w, kids), found) ↦
            find_from-step cur a rest after w kids (same ∙ found)
            ∙ sym (find_from-step cur a rest nodes w kids found)
            ∙ h
      ]

  kept_at :
      (a : ℕ) (rest : List ℕ)
      → (find_from cur (p ∷ rest) nodes ≡ some v → find_from cur (p ∷ rest) after ≡ some v)
      → find_from cur (a ∷ rest) nodes ≡ some v
      → find_from cur (a ∷ rest) after ≡ some v
  kept_at a rest here h = elim (Bool-cases (p == a)) [
    | inl eq ↦
        let same : p ≡ a = ground arith in
        subst
          (λ (x : ℕ).
            find_from cur (x ∷ rest) nodes ≡ some v → find_from cur (x ∷ rest) after ≡ some v)
          same here h
    | inr ne ↦ kept_beside a rest ne h
  ]

find_from-kept :
    (rest : List ℕ) (a : ℕ) (parts cur : List ℕ) (e : Value) (nodes : Nodes) (v : Value)
    → find_from cur (a ∷ rest) nodes ≡ some v
    → find_from cur (a ∷ rest) (register_from cur parts e nodes) ≡ some v
unfolding register_from
find_from-kept rest a [] cur e nodes v h = h
find_from-kept [] a (p ∷ parts) cur e nodes v h =
    kept_at e nodes cur p parts v a [] (kept_last e nodes cur p parts v) h
find_from-kept (q ∷ qs) a (p ∷ parts) cur e nodes v h =
    kept_at e nodes cur p parts v a (q ∷ qs)
      (kept_below e nodes cur p parts v q qs
        (λ kids. find_from-kept qs q parts (cur ++ p ∷ []) e kids v))
      h

-- A value that is registered under an identifier that has no node yet is found there; and nothing that was
-- found before is lost or changed by a registration, whatever the two identifiers are.
pub register_oid-find :
    (part : ℕ) (parts : List ℕ) (e : Value) (t : Nodes)
    → (find_by_oid (part ∷ parts) t ≡ none
        → find_by_oid (part ∷ parts) (register_oid (part ∷ parts) e t) ≡ some e)
      × ((a : ℕ) (rest : List ℕ) (v : Value)
          → find_by_oid (a ∷ rest) t ≡ some v
          → find_by_oid (a ∷ rest) (register_oid (part ∷ parts) e t) ≡ some v)
unfolding find_by_oid register_oid
register_oid-find part parts e t = (
  find_from-register_from parts [] part e t,
  λ a rest v. find_from-kept rest a (part ∷ parts) [] e t v,
)
