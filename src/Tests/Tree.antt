-- ===== src/Tests/Tree.antt =====
-- The theorems on the tree of SNMP at three identifiers, and a request with its reply.
use myip.Base.{ℕ, ◌≡◌, refl, none, some, List, [], ◌∷◌, same_bytes}
use myip.Snmp.{si_integer, oid_bytes, integer_length}
use myip.Snmp.Data.{
  Value, static_text, static_number, Nodes, no_nodes, Surroundings, register_oid, find_by_oid,
}
use myip.Snmp.Register.{register_oid-find}
use myip.Snmp.Next.{known, find_next_oid, next_is, at_end}
use myip.Snmp.Reply.{answered, input}
use myip.Snmp.Bounds.{IsDone, input-IsDone}

abbrev surroundings : Surroundings
surroundings = record { now_us = 0; counter = λ c. 0 }

abbrev tree : Nodes
tree =
    register_oid (1 ∷ 3 ∷ 6 ∷ 2 ∷ []) (static_text (120 ∷ []))
      (register_oid (1 ∷ 3 ∷ 6 ∷ 1 ∷ 5 ∷ []) (static_number si_integer 7) no_nodes)

register_oid-find_example :
    (find_by_oid (1 ∷ 3 ∷ 6 ∷ 1 ∷ 4 ∷ []) tree ≡ none
      → find_by_oid
          (1 ∷ 3 ∷ 6 ∷ 1 ∷ 4 ∷ [])
          (register_oid (1 ∷ 3 ∷ 6 ∷ 1 ∷ 4 ∷ []) (static_text (121 ∷ [])) tree)
        ≡ some (static_text (121 ∷ [])))
    × ((a : ℕ) (rest : List ℕ) (v : Value)
        → find_by_oid (a ∷ rest) tree ≡ some v
        → find_by_oid
            (a ∷ rest)
            (register_oid (1 ∷ 3 ∷ 6 ∷ 1 ∷ 4 ∷ []) (static_text (121 ∷ [])) tree)
          ≡ some v)
register_oid-find_example = register_oid-find 1 (3 ∷ 6 ∷ 1 ∷ 4 ∷ []) (static_text (121 ∷ [])) tree

-- A GetRequest for 1.3.6.2.
abbrev request : List ℕ
request =
    0x30 ∷ 32 ∷ 2 ∷ 1 ∷ 0 ∷ 4 ∷ 3 ∷ 97 ∷ 98 ∷ 99 ∷ 0xa0 ∷ 22 ∷ 2 ∷ 1 ∷ 9 ∷ 2 ∷ 1 ∷ 0 ∷ 2 ∷ 1 ∷ 0
    ∷ 0x30 ∷ 11 ∷ 0x30 ∷ 9 ∷ 6 ∷ 3 ∷ 43 ∷ 6 ∷ 2 ∷ 5 ∷ 0 ∷ 5 ∷ 0 ∷ []

input-IsDone_example : IsDone (input surroundings tree request)
input-IsDone_example = input-IsDone surroundings tree request

answered_request :
    input surroundings tree request
    ≡ answered (
        48 ∷ 43 ∷ 2 ∷ 4 ∷ 0 ∷ 0 ∷ 0 ∷ 0 ∷ 4 ∷ 3 ∷ 97 ∷ 98 ∷ 99 ∷ 162 ∷ 30 ∷ 2 ∷ 4 ∷ 0 ∷ 0 ∷ 0 ∷ 9
        ∷ 2 ∷ 4 ∷ 0 ∷ 0 ∷ 0 ∷ 0 ∷ 2 ∷ 4 ∷ 0 ∷ 0 ∷ 0 ∷ 0 ∷ 48 ∷ 10 ∷ 48 ∷ 8 ∷ 6 ∷ 3 ∷ 43 ∷ 6 ∷ 2 ∷ 4
        ∷ 1 ∷ 120 ∷ [])
unfolding input oid_bytes register_oid same_bytes integer_length
answered_request = refl

nexts :
    (find_next_oid (known (1 ∷ 3 ∷ 6 ∷ 1 ∷ 5 ∷ [])) tree ≡ next_is (1 ∷ 3 ∷ 6 ∷ 2 ∷ []))
    × (find_next_oid (known (1 ∷ 3 ∷ 6 ∷ 2 ∷ [])) tree ≡ at_end)
    × (find_next_oid (known (1 ∷ [])) tree ≡ next_is (1 ∷ 3 ∷ 6 ∷ 1 ∷ 5 ∷ []))
unfolding find_next_oid register_oid same_bytes
nexts = (refl, refl, refl)
