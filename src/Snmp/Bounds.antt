-- ===== src/Snmp/Bounds.antt =====
-- The recursion of snmp.cpp over a packet ends.
use myip.Base.{
  ℕ, zero, suc, ◌+◌, ◌-◌, ◌≡◌, ◌⊎◌, ◌≤◌, ◌<◌, refl, Bool, true, false, not, ◌&&◌, Bool-cases,
  Option, Option-cases, inl, inr, none, some, List, [], ◌∷◌, ◌==◌, ltb, arith, length, drop,
  length-drop, u32,
}
use myip.Snmp.{get_type_length}
use myip.Snmp.Data.{Nodes, Surroundings}
use myip.Snmp.Messages.{
  OidReq, empty_request, bytes_of, Read, refused, beyond, value, read_integer, Head, bad_head,
  head_beyond, head, list_head, pdu_head, Flags, Step, fails, crashes, passed, sequence, pdu,
  ber_step, Job, elements, variables, Outcome, returned, overrun, out_of_fuel, if_ok, anyway, run,
  call,
}
use myip.Snmp.Reply.{
  Answer, invalid, nothing, failed, stuck, answered, answer_to, answer_of, input, gen_reply,
}

abbrev IsRead : ℕ → Read → Type 0
IsRead n refused = Unit
IsRead n beyond = Unit
IsRead n (value v behind) = length behind ≤ n

read_integer-IsRead : (len : ℕ) (p : List ℕ) (n : ℕ) → length p ≤ n → IsRead n (read_integer len p)
unfolding read_integer get_type_length
read_integer-IsRead len p n h = elim (Bool-cases (ltb len 2)) [
  | inl short ↦ rw (read_integer, short) tt
  | inr long ↦ elim (Option-cases (get_type_length p)) [
    | inl e ↦ rw (read_integer, long, e) tt
    | inr ((type, k), e) ↦ elim (Bool-cases (type == 2)) [
      | inr other ↦ rw (read_integer, long, e, other) tt
      | inl integer ↦ elim (Option-cases (bytes_of k (drop 2 p))) [
        | inl e' ↦ rw (read_integer, long, e, integer, e') tt
        | inr (b, e') ↦
            rw (read_integer, long, e, integer, e') (omega (arith, length-drop (2 + k) p))
      ]
    ]
  ]
]

abbrev IsHead : ℕ → Head → Type 0
IsHead n (bad_head req_id) = Unit
IsHead n head_beyond = Unit
IsHead n (head req_id len behind) = length behind ≤ n

list_head-IsHead : (req_id : ℕ) (p : List ℕ) (n : ℕ) → length p ≤ n → IsHead n (list_head req_id p)
list_head-IsHead req_id [] n h = tt
list_head-IsHead req_id (type ∷ []) n h = elim (Bool-cases (type == 0x30)) [
  | inl e ↦ rw e tt
  | inr e ↦ rw e tt
]
list_head-IsHead req_id (type ∷ len ∷ p) n h = elim (Bool-cases (type == 0x30)) [
  | inl e ↦ rw e (omega arith)
  | inr e ↦ rw e tt
]

-- A case split on a reader, with what it has left.
Read-cases :
    (n : ℕ) (r : Read)
    → IsRead n r
    → (r ≡ refused) ⊎ (r ≡ beyond) ⊎ ((v : ℕ) × (p : List ℕ) × (r ≡ value v p) × (length p ≤ n))
Read-cases n refused h = inl refl
Read-cases n beyond h = inr (inl refl)
Read-cases n (value v p) h = inr (inr (v, p, refl, h))

pdu_head-IsHead : (len : ℕ) (p : List ℕ) → IsHead (length p) (pdu_head len p)
unfolding pdu_head
pdu_head-IsHead len p =
    let n : ℕ = length p in
    elim (Read-cases n (read_integer len p) (read_integer-IsRead len p n (omega arith))) [
      | inl e ↦ rw (pdu_head, e) tt
      | inr (inl e) ↦ rw (pdu_head, e) tt
      | inr (inr (req_id, p1, e, h1)) ↦
          elim (Read-cases n (read_integer len p1) (read_integer-IsRead len p1 n h1)) [
            | inl e1 ↦ rw (pdu_head, e, e1) tt
            | inr (inl e1) ↦ rw (pdu_head, e, e1) tt
            | inr (inr (error, p2, e1, h2)) ↦
                elim (Read-cases n (read_integer len p2) (read_integer-IsRead len p2 n h2)) [
                  | inl e2 ↦ rw (pdu_head, e, e1, e2) tt
                  | inr (inl e2) ↦ rw (pdu_head, e, e1, e2) tt
                  | inr (inr (error_index, p3, e2, h3)) ↦
                      rw (pdu_head, e, e1, e2) (list_head-IsHead req_id p3 n h3)
                ]
          ]
    ]

abbrev IsEnded : Outcome → Type 0
IsEnded (returned ok r) = Unit
IsEnded overrun = Unit
IsEnded out_of_fuel = ⊥

if_ok-IsEnded :
    (o : Outcome) (k : OidReq → Outcome)
    → IsEnded o
    → ((r : OidReq) → IsEnded (k r))
    → IsEnded (if_ok o k)
if_ok-IsEnded (returned true r) k h g = g r
if_ok-IsEnded (returned false r) k h g = tt
if_ok-IsEnded overrun k h g = tt
if_ok-IsEnded out_of_fuel k h g = absurd h

anyway-IsEnded :
    (o : Outcome) (k : OidReq → Outcome)
    → IsEnded o
    → ((r : OidReq) → IsEnded (k r))
    → IsEnded (anyway o k)
anyway-IsEnded (returned ok r) k h g = g r
anyway-IsEnded overrun k h g = tt
anyway-IsEnded out_of_fuel k h g = absurd h

-- What is read behind the two bytes of an element is shorter.
get_type_length-size : (p : List ℕ) (e : ℕ × ℕ) → get_type_length p ≡ some e → 2 ≤ length p
unfolding get_type_length
get_type_length-size [] e h = ground arith
get_type_length-size (a ∷ []) e h = ground arith
get_type_length-size (a ∷ b ∷ p) e h = omega arith

-- The case split on an element.
Step-cases :
    (s : Step)
    → (s ≡ fails)
      ⊎ (s ≡ crashes)
      ⊎ ((f : Flags) × (r : OidReq) × (s ≡ passed f r))
      ⊎ (s ≡ sequence)
      ⊎ ((g : Bool) × (s ≡ pdu g))
Step-cases fails = inl refl
Step-cases crashes = inr (inl refl)
Step-cases (passed f r) = inr (inr (inl (f, r, refl)))
Step-cases sequence = inr (inr (inr (inl refl)))
Step-cases (pdu g) = inr (inr (inr (inr (g, refl))))

Head-cases :
    (n : ℕ) (x : Head)
    → IsHead n x
    → ((i : Option ℕ) × (x ≡ bad_head i))
      ⊎ (x ≡ head_beyond)
      ⊎ ((i len : ℕ) × (p : List ℕ) × (x ≡ head i len p) × (length p ≤ n))
Head-cases n (bad_head i) h = inl (i, refl)
Head-cases n head_beyond h = inr (inl refl)
Head-cases n (head i len p) h = inr (inr (i, len, p, refl, h))

module _ (data_ : Nodes) where
  abbrev Ends : ℕ → Type 0
  Ends fuel =
      (job : Job) (p : List ℕ) (r : OidReq) → length p < fuel → IsEnded (run data_ fuel job p r)

  elements-IsEnded :
      (fuel : ℕ)
      → Ends fuel
      → (entered : Bool) (f : Flags) (len : ℕ) (p : List ℕ) (r : OidReq) → length p < suc fuel
      → IsEnded (run data_ (suc fuel) (elements entered f len) p r)
  unfolding run
  elements-IsEnded fuel ih entered f len p r h = elim (Bool-cases (not entered && ltb len 2)) [
    | inl small ↦ rw (run, small) tt
    | inr large ↦ elim (Bool-cases (len == 0)) [
      | inl done ↦ rw (run, large, done) tt
      | inr more ↦ elim (Option-cases (get_type_length p)) [
        | inl e ↦ rw (run, large, more, e) tt
        | inr ((type, n), e) ↦ elim (Bool-cases (ltb len (2 + n))) [
          | inl out ↦ rw (run, large, more, e, out) tt
          | inr fits ↦
              let size = get_type_length-size p (type, n) e in
              let next : (q : OidReq)
                  → IsEnded (run data_ fuel (elements true f (len - (2 + n))) (drop (2 + n) p) q) =
                λ q.
                  ih (elements true f (len - (2 + n))) (drop (2 + n) p) q
                    (omega (arith, length-drop (2 + n) p)) in
              elim (Step-cases (ber_step data_ f type (bytes_of n (drop 2 p)) r)) [
                | inl s ↦ rw (run, large, more, e, fits, s) tt
                | inr (inl s) ↦ rw (run, large, more, e, fits, s) tt
                | inr (inr (inl (f', r', s))) ↦
                    rw (run, large, more, e, fits, s)
                      (ih (elements true f' (len - (2 + n))) (drop (2 + n) p) r'
                        (omega (arith, length-drop (2 + n) p)))
                | inr (inr (inr (inl s))) ↦
                    rw (run, large, more, e, fits, s)
                      (if_ok-IsEnded _ _
                        (ih (call f.is_getnext (u32 (f.is_top + 0xffffffff)) n) (drop 2 p) r
                          (omega (arith, length-drop 2 p)))
                        next)
                | inr (inr (inr (inr (g, s)))) ↦
                    elim (Head-cases (length (drop 2 p)) (pdu_head n (drop 2 p))
                      (pdu_head-IsHead n (drop 2 p))) [
                        | inl (i, e') ↦ rw (run, large, more, e, fits, s, e') tt
                        | inr (inl e') ↦ rw (run, large, more, e, fits, s, e') tt
                        | inr (inr (i, list, behind, e', shorter)) ↦
                            rw (run, large, more, e, fits, s, e')
                              (if_ok-IsEnded _ _
                                (ih (variables g list) behind (record r { req_id = i })
                                  (omega (arith, length-drop 2 p)))
                                next)
                      ]
              ]
        ]
      ]
    ]
  ]

  variables-IsEnded :
      (fuel : ℕ)
      → Ends fuel
      → (g : Bool) (len : ℕ) (p : List ℕ) (r : OidReq) → length p < suc fuel
      → IsEnded (run data_ (suc fuel) (variables g len) p r)
  unfolding run
  variables-IsEnded fuel ih g len p r h = elim (Bool-cases (len == 0)) [
    | inl done ↦ rw (run, done) tt
    | inr more ↦ elim (Option-cases (get_type_length p)) [
      | inl e ↦ rw (run, more, e) tt
      | inr ((type, n), e) ↦ elim (Bool-cases (ltb len (2 + n))) [
        | inl out ↦ rw (run, more, e, out) tt
        | inr fits ↦ elim (Bool-cases (type == 0x30)) [
          | inr other ↦ rw (run, more, e, fits, other) tt
          | inl list ↦
              let size = get_type_length-size p (type, n) e in
              rw (run, more, e, fits, list)
                (anyway-IsEnded _ _ (ih (call g 0 n) (drop 2 p) r (omega (arith, length-drop 2 p)))
                  (λ q.
                    ih (variables g (len - (2 + n))) (drop (2 + n) p) q
                      (omega (arith, length-drop (2 + n) p))))
        ]
      ]
    ]
  ]

  run-IsEnded : (fuel : ℕ) → Ends fuel
  run-IsEnded zero job p r h = absurd (omega arith)
  run-IsEnded (suc fuel) (elements entered f len) p r h =
      elements-IsEnded fuel (run-IsEnded fuel) entered f len p r h
  run-IsEnded (suc fuel) (variables g len) p r h =
      variables-IsEnded fuel (run-IsEnded fuel) g len p r h

abbrev pub IsDone : Answer → Type 0
IsDone invalid = Unit
IsDone nothing = Unit
IsDone failed = Unit
IsDone stuck = ⊥
IsDone (answered reply) = Unit

answer_to-IsDone : (o : Option (List ℕ)) → IsDone (answer_to o)
answer_to-IsDone none = tt
answer_to-IsDone (some []) = tt
answer_to-IsDone (some (b ∷ reply)) = tt

answer_of-IsDone :
    (s : Surroundings) (data_ : Nodes) (o : Outcome) → IsEnded o → IsDone (answer_of s data_ o)
answer_of-IsDone s data_ (returned true r) h = answer_to-IsDone (gen_reply s data_ r)
answer_of-IsDone s data_ (returned false r) h = tt
answer_of-IsDone s data_ overrun h = tt
answer_of-IsDone s data_ out_of_fuel h = absurd h

-- Whatever the bytes of a packet claim, the calls of process_BER and process_PDU and their loops come to
-- an end, or to a read of bytes behind the packet, where the model stops: they stand one inside of the
-- other at most one time more than the packet has bytes. This is no bound on the number of steps.
pub input-IsDone : (s : Surroundings) (data_ : Nodes) (p : List ℕ) → IsDone (input s data_ p)
unfolding input
input-IsDone s data_ [] = tt
input-IsDone s data_ (b ∷ p) =
    answer_of-IsDone s data_
      (run data_ (suc (length (b ∷ p))) (call false 2 (length (b ∷ p))) (b ∷ p) empty_request)
      (run-IsEnded data_ (suc (length (b ∷ p))) (call false 2 (length (b ∷ p))) (b ∷ p)
        empty_request (omega arith))
