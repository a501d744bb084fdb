-- ===== src/Snmp/Reply.antt =====
-- `gen_reply` and `input` of snmp.cpp.
use myip.Base.{
  ℕ, suc, ◌+◌, true, false, ◌&&◌, ltb, Option, none, some, List, [], ◌∷◌, ◌==◌, if◌then◌else◌,
  length, u8, take, ◌>>=◌,
}
use myip.Snmp.{
  widened, si_integer, integer_payload, integer_length, octet_payload, null_payload, oid_bytes,
  arcs_bytes, sequence_payload,
}
use myip.Snmp.Data.{
  Nodes, Value, Element, snmp_integer, snmp_octet_string, snmp_oid, Surroundings, get_data,
  find_by_oid,
}
use myip.Snmp.Next.{Text, asked, known, numbers}
use myip.Snmp.Messages.{OidReq, empty_request, Outcome, returned, overrun, out_of_fuel, call, run}

-- The bytes of the text of a node: "1.3." in front is one byte.
abbrev pub number_text : List ℕ → List ℕ
number_text [] = []
number_text (a ∷ []) = arcs_bytes (a ∷ [])
number_text (a ∷ b ∷ []) = arcs_bytes (a ∷ b ∷ [])
number_text (a ∷ b ∷ v ∷ arcs) =
    if a == 1 && b == 3
    then oid_bytes (record { starts = true; arcs = v ∷ arcs })
    else arcs_bytes (a ∷ b ∷ v ∷ arcs)

abbrev pub text_oid_bytes : Text → List ℕ
text_oid_bytes (asked oid) = oid_bytes oid
text_oid_bytes (known oid) = number_text oid

-- The payload of an object identifier; `none`: its length has wrapped around, and the copy goes
-- behind the buffer.
abbrev pub oid_payload : List ℕ → Option (List ℕ)
oid_payload v =
    let out_len = u8 (length v + 2) in
    let pl_len = u8 (length v) in
    if ltb out_len (pl_len + 2) then none else some (0x06 ∷ pl_len ∷ take pl_len v)

unfoldable pub payload_of : Element → Option (List ℕ)
unfolding integer_payload octet_payload
payload_of (snmp_integer type v) = some (integer_payload type v (integer_length v))
payload_of (snmp_octet_string v) = octet_payload v
payload_of (snmp_oid oid) = oid_payload (number_text oid)

-- The numbers without a last 0, of a text that ends with ".0".
abbrev pub without_zero : List ℕ → Option (List ℕ)
without_zero [] = none
without_zero (n ∷ []) = none
without_zero (n ∷ m ∷ []) = if m == 0 then some (n ∷ []) else none
without_zero (n ∷ m ∷ k ∷ rest) = elim (without_zero (m ∷ k ∷ rest)) [
  | none ↦ none
  | some oid ↦ some (n ∷ oid)
]

-- The two searches for a text: under its own name, and without ".0" at its end.
unfoldable pub look_up : Nodes → Text → Option Value
unfolding find_by_oid
look_up data_ text = elim (numbers text) [
  | none ↦ none
  | some oid ↦ elim (find_by_oid oid data_) [
    | some v ↦ some v
    | none ↦ elim (without_zero oid) [ none ↦ none | some oid' ↦ find_by_oid oid' data_ ]
  ]
]

-- The payload of what a text stands for; null for an inner node and for one that is not there.
unfoldable pub current_element : Surroundings → Nodes → Text → Option (List ℕ)
unfolding look_up get_data payload_of
current_element s data_ text = elim (look_up data_ text) [
  | none ↦ some null_payload
  | some v ↦ elim (get_data s v) [ none ↦ some null_payload | some e ↦ payload_of e ]
]

unfoldable pub varbind : Surroundings → Nodes → Text → Option (List ℕ)
unfolding current_element
varbind s data_ text = do
  oid ← oid_payload (text_oid_bytes text)
  element ← current_element s data_ text
  some (sequence_payload 0x30 (oid ∷ element ∷ []))

unfoldable pub varbinds : Surroundings → Nodes → List Text → Option (List (List ℕ))
unfolding varbind
varbinds s data_ [] = some []
varbinds s data_ (text ∷ texts) = do
  first ← varbind s data_ text
  rest ← varbinds s data_ texts
  some (first ∷ rest)

abbrev pub integer_of : ℕ → List ℕ
integer_of v = integer_payload si_integer v (integer_length v)

abbrev pub community_of : OidReq → List ℕ
community_of r = elim r.community [
  | [] ↦ 112 ∷ 117 ∷ 98 ∷ 108 ∷ 105 ∷ 99 ∷ []
  | c ∷ rest ↦ r.community
]

-- The reply to a request that was read; `none`: a length has wrapped around.
unfoldable pub gen_reply : Surroundings → Nodes → OidReq → Option (List ℕ)
unfolding varbinds sequence_payload
gen_reply s data_ r = do
  community ← octet_payload (community_of r)
  variables ← varbinds s data_ r.oids
  some (
      sequence_payload 0x30 (
        integer_of (widened r.version)
        ∷ community
        ∷ sequence_payload 0xa2 (
            integer_of r.req_id
            ∷ integer_of r.err
            ∷ integer_of r.err_idx
            ∷ sequence_payload 0x30 variables
            ∷ [])
        ∷ []))

-- What `input` does with the payload of a packet: the request is counted as invalid, or answered, or
-- answered by nothing; `failed`: bytes behind a buffer are used.
pub data Answer : Type 0 where
  invalid nothing failed stuck : Answer
  answered : (reply : List ℕ) → Answer

abbrev pub answer_to : Option (List ℕ) → Answer
answer_to none = failed
answer_to (some []) = nothing
answer_to (some (b ∷ reply)) = answered (b ∷ reply)

abbrev pub answer_of : Surroundings → Nodes → Outcome → Answer
answer_of s data_ (returned true r) = answer_to (gen_reply s data_ r)
answer_of s data_ (returned false r) = invalid
answer_of s data_ overrun = failed
answer_of s data_ out_of_fuel = stuck

unfoldable pub input : Surroundings → Nodes → List ℕ → Answer
unfolding run gen_reply
input s data_ [] = invalid
input s data_ (b ∷ p) =
    answer_of s data_
      (run data_ (suc (length (b ∷ p))) (call false 2 (length (b ∷ p))) (b ∷ p) empty_request)
