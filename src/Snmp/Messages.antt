-- ===== src/Snmp/Messages.antt =====
-- The requests that snmp.cpp reads, and its replies.
use myip.Base.{
  ℕ, zero, suc, ◌+◌, ◌-◌, Bool, true, false, not, ◌&&◌, ◌||◌, Option, none, some, List, [], ◌∷◌,
  ◌++◌, ◌==◌, ltb, if◌then◌else◌, length, take, drop, u32,
}
use myip.Snmp.{get_integer, get_type_length, get_oid}
use myip.Snmp.Data.{Nodes}
use myip.Snmp.Next.{Text, asked, known, find_next_oid, Next, next_is, at_end, null_pointer}

-- `oid_req_t`
pub record OidReq : Type 0 where
  pub oids : List Text
  pub req_id : ℕ
  pub err : ℕ
  pub err_idx : ℕ
  pub version : ℕ
  pub community : List ℕ

abbrev pub empty_request : OidReq
empty_request = record { oids = []; req_id = 0; err = 0; err_idx = 0; version = 0; community = [] }

-- The next `n` bytes; `none`: they are not there.
abbrev pub bytes_of : ℕ → List ℕ → Option (List ℕ)
bytes_of n p = if ltb (length p) n then none else some (take n p)

-- An integer of a PDU of a length, which is not made smaller on the way: its value and what is behind it.
pub data Read : Type 0 where
  refused beyond : Read
  value : (v : ℕ) → (behind : List ℕ) → Read

unfoldable pub read_integer : ℕ → List ℕ → Read
unfolding get_type_length get_integer
read_integer len p = if ltb len 2 then refused else elim (get_type_length p) [
  | none ↦ beyond
  | some (type, n) ↦ if not (type == 2) then refused else elim (bytes_of n (drop 2 p)) [
    | none ↦ beyond
    | some b ↦ value (get_integer b) (drop (2 + n) p)
  ]
]

-- The head of a PDU: refused, with its number if that was read; or its number and the length of the list of variables, with the bytes behind.
pub data Head : Type 0 where
  bad_head : (req_id : Option ℕ) → Head
  head_beyond : Head
  head : (req_id len_vb_list : ℕ) → (behind : List ℕ) → Head

abbrev pub list_head : ℕ → List ℕ → Head
list_head req_id (type ∷ []) = if type == 0x30 then head_beyond else bad_head (some req_id)
list_head req_id (type ∷ len ∷ p) =
    if type == 0x30 then head req_id len p else bad_head (some req_id)
list_head req_id [] = head_beyond

unfoldable pub pdu_head : ℕ → List ℕ → Head
unfolding read_integer
pdu_head len p = elim (read_integer len p) [
  | refused ↦ bad_head none
  | beyond ↦ head_beyond
  | value req_id p1 ↦ elim (read_integer len p1) [
    | refused ↦ bad_head (some req_id)
    | beyond ↦ head_beyond
    | value error p2 ↦ elim (read_integer len p2) [
      | refused ↦ bad_head (some req_id)
      | beyond ↦ head_beyond
      | value error_index p3 ↦ list_head req_id p3
    ]
  ]
]

-- The flags of the loop of `process_BER`.
pub record Flags : Type 0 where
  pub is_getnext : Bool
  pub is_top : ℕ
  pub first_integer : Bool
  pub first_octet_str : Bool

-- What an element of `process_BER` comes to: an end, something that is passed over, a sequence, or a PDU.
pub data Step : Type 0 where
  fails crashes : Step
  passed : (f : Flags) → (r : OidReq) → Step
  sequence : Step
  pdu : (is_getnext : Bool) → Step

-- Only the first integer and the first text at the top are read.
abbrev pub on_integer : Flags → Option (List ℕ) → OidReq → Step
on_integer f content r =
    let f' : Flags = record f { first_integer = false } in
    if not (f.is_top == 0) && f.first_integer
    then elim content [
      | none ↦ crashes
      | some b ↦ passed f' (record r { version = u32 (get_integer b) })
    ]
    else passed f' r

abbrev pub on_octet_str : Flags → Option (List ℕ) → OidReq → Step
on_octet_str f content r =
    let f' : Flags = record f { first_octet_str = false } in
    if not (f.is_top == 0) && f.first_octet_str
    then elim content [ none ↦ crashes | some b ↦ passed f' (record r { community = b }) ]
    else passed f' r

abbrev pub asked_for : Flags → Next → OidReq → Step
asked_for f (next_is oid) r = passed f (record r { oids = r.oids ++ known oid ∷ [] })
asked_for f at_end r = passed f (record r { err = 2; err_idx = 1 })
asked_for f null_pointer r = crashes

abbrev pub on_oid : Nodes → Flags → List ℕ → OidReq → Step
on_oid data_ f b r = elim (get_oid b) [
  | none ↦ fails
  | some oid ↦
      if f.is_getnext
      then asked_for f (find_next_oid (asked oid) data_) r
      else passed f (record r { oids = r.oids ++ asked oid ∷ [] })
]

-- An element with its content, if that is there.
unfoldable pub ber_step : Nodes → Flags → ℕ → Option (List ℕ) → OidReq → Step
unfolding get_integer get_oid find_next_oid
ber_step data_ f type content r =
    if type == 0x02
    then on_integer f content r
    else (if type == 0x04
        then on_octet_str f content r
        else (if type == 0x05
            then passed f r
            else (if type == 0x06
                then elim content [ none ↦ crashes | some b ↦ on_oid data_ f b r ]
                else (if type == 0x30
                    then sequence
                    else (if type == 0xa0 || type == 0xa3
                        then pdu f.is_getnext
                        else (if type == 0xa1 then pdu true else fails))))))

-- A call of `process_BER` that has or has not passed its test of the size, or the loop of `process_PDU`
-- over the variables, with the bytes that are left to it.
pub data Job : Type 0 where
  elements : (entered : Bool) → (f : Flags) → (len : ℕ) → Job
  variables : (is_getnext : Bool) → (len : ℕ) → Job

-- How a call ends.
pub data Outcome : Type 0 where
  returned : (ok : Bool) → (r : OidReq) → Outcome
  overrun out_of_fuel : Outcome

abbrev pub call : Bool → ℕ → ℕ → Job
call is_getnext is_top len =
    elements false
      (record {
        is_getnext = is_getnext;
        is_top = is_top;
        first_integer = true;
        first_octet_str = true;
      })
      len

-- A call whose result is tested, and one whose result is not.
abbrev pub if_ok : Outcome → (OidReq → Outcome) → Outcome
if_ok (returned true r) k = k r
if_ok (returned false r) k = returned false r
if_ok overrun k = overrun
if_ok out_of_fuel k = out_of_fuel

abbrev pub anyway : Outcome → (OidReq → Outcome) → Outcome
anyway (returned ok r) k = k r
anyway overrun k = overrun
anyway out_of_fuel k = out_of_fuel

abbrev pub numbered : Option ℕ → OidReq → OidReq
numbered none r = r
numbered (some req_id) r = record r { req_id = req_id }

-- `process_BER` and `process_PDU` on all bytes from their start to the end of the packet. `overrun`: a
-- byte behind the packet is read, or a null pointer. The fuel is the depth of the recursion, in which the
-- rest of a list is inside of its first element too; one above the number of bytes is enough.
unfoldable pub run : Nodes → ℕ → Job → List ℕ → OidReq → Outcome
unfolding get_type_length ber_step pdu_head
run data_ zero job p r = out_of_fuel
run data_ (suc fuel) (elements entered f len) p r = elim (not entered && ltb len 2) [
  | true ↦ returned false r
  | false ↦ elim (len == 0) [
    | true ↦ returned true r
    | false ↦ elim (get_type_length p) [
      | none ↦ overrun
      | some (type, n) ↦ elim (ltb len (2 + n)) [
        | true ↦ returned false r
        | false ↦ elim (ber_step data_ f type (bytes_of n (drop 2 p)) r) [
          | fails ↦ returned false r
          | crashes ↦ overrun
          | passed f' r' ↦ run data_ fuel (elements true f' (len - (2 + n))) (drop (2 + n) p) r'
          | sequence ↦
              if_ok
                (run data_ fuel (call f.is_getnext (u32 (f.is_top + 0xffffffff)) n) (drop 2 p) r)
                (λ r'. run data_ fuel (elements true f (len - (2 + n))) (drop (2 + n) p) r')
          | pdu is_getnext ↦ elim (pdu_head n (drop 2 p)) [
            | bad_head req_id ↦ returned false (numbered req_id r)
            | head_beyond ↦ overrun
            | head req_id len_vb_list behind ↦
                if_ok
                  (run data_ fuel (variables is_getnext len_vb_list) behind
                    (record r { req_id = req_id }))
                  (λ r'. run data_ fuel (elements true f (len - (2 + n))) (drop (2 + n) p) r')
          ]
        ]
      ]
    ]
  ]
]
run data_ (suc fuel) (variables is_getnext len) p r = elim (len == 0) [
  | true ↦ returned true r
  | false ↦ elim (get_type_length p) [
    | none ↦ overrun
    | some (type, n) ↦ elim (ltb len (2 + n)) [
      | true ↦ returned false r
      | false ↦ elim (type == 0x30) [
        | false ↦ returned false r
        | true ↦
            anyway (run data_ fuel (call is_getnext 0 n) (drop 2 p) r)
              (λ r'. run data_ fuel (variables is_getnext (len - (2 + n))) (drop (2 + n) p) r')
      ]
    ]
  ]
]
