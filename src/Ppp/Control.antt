-- ===== src/Ppp/Control.antt =====
-- The control protocols of phys_gen_ppp.cpp: LCP, IPCP, IPV6CP and CCP. The text that is logged is
-- left out.
use myip.Base.{
  ℕ, zero, suc, ◌+◌, ◌-◌, Bool, true, false, Option, none, some, List, [], ◌∷◌, ◌++◌, ltb, ◌==◌,
  if◌then◌else◌, length, get_or, take, drop, shr, shl, u8, bit_and, bit_or,
}
use myip.Addr.Defs.{AnyAddr}

-- The object; `stack` is the address of the IPv4 stack of `prot_map`, if there is one.
pub record Ppp : Type 0 where
  pub protocol_compression : Bool
  pub ac_field_compression : Bool
  pub lcp_options_acked : Bool
  pub ipcp_options_acked : Bool
  pub ipv6cp_options_acked : Bool
  pub magic : ℕ
  pub accm_tx : List ℕ
  pub accm_rx : List ℕ
  pub opponent_address : AnyAddr
  pub stack : Option AnyAddr

-- A control packet that is handed to `transmit_low` with `ACCM_tx`, or a payload for the IPv4 stack.
pub data Event : Type 0 where
  control : (protocol : ℕ) → (out accm : List ℕ) → Event
  queued : (payload : List ℕ) → Event

-- A call returns, or ends the thread: `at` throws, an assertion fails or a read goes behind the
-- vector; or the fuel of a loop is used up.
pub data Outcome (A : Type 0) : Type 0 where
  returned : A → Outcome A
  thrown stuck : Outcome A

abbrev pub slice : List ℕ → ℕ → ℕ → List ℕ
slice data_ offset len = take len (drop offset data_)

-- The loop over the options that all handlers have; `handle` gets the type, the length and
-- `next_offset` of an option. The vector has 8 bytes or more.
unfoldable pub options_loop :
    {S : Type 0} → (ℕ → ℕ → ℕ → S → Option S) → ℕ → List ℕ → ℕ → S → Outcome S
options_loop handle zero data_ offset s = stuck
options_loop handle (suc fuel) data_ offset s = elim (ltb offset (length data_ - 2)) [
  | false ↦ returned s
  | true ↦ elim (ltb (length data_ - offset) (get_or data_ (offset + 1) 0)) [
    | true ↦ returned s
    | false ↦ elim (handle (get_or data_ offset 0) (get_or data_ (offset + 1) 0) offset s) [
      | none ↦ thrown
      | some s' ↦ options_loop handle fuel data_ (offset + get_or data_ (offset + 1) 0) s'
    ]
  ]
]

-- What follows a loop.
abbrev pub after : {S T : Type 0} → Outcome S → (S → Outcome T) → Outcome T
after (returned s) k = k s
after thrown k = thrown
after stuck k = stuck

-- What a handler reads first, at offset 4: the code, the identifier and a length.
unfoldable pub with_code : {T : Type 0} → List ℕ → T → (ℕ → ℕ → Outcome T) → Outcome T
with_code data_ ignored k =
    if ltb (length data_) 8
    then thrown
    else (if ltb (length data_) (4 + bit_or (shl (get_or data_ 6 0) 8) (get_or data_ 7 0))
        then returned ignored
        else k (get_or data_ 4 0) (get_or data_ 5 0))

-- The packet that `send_Xcp` sends.
unfoldable pub xcp : ℕ → ℕ → List ℕ → List ℕ
xcp code identifier data_ =
    let size = 4 + length data_ in code ∷ identifier ∷ u8 (shr size 8) ∷ bit_and size 255 ∷ data_

unfoldable pub send_xcp : Ppp → ℕ → ℕ → ℕ → List ℕ → Event
unfolding xcp
send_xcp s code identifier protocol data_ = control protocol (xcp code identifier data_) s.accm_tx

unfoldable pub send_rej : Ppp → ℕ → ℕ → List ℕ → Event
unfolding send_xcp
send_rej s protocol identifier options = send_xcp s 4 identifier protocol options

unfoldable pub send_ack : Ppp → ℕ → ℕ → List ℕ → Event
unfolding send_xcp
send_ack s protocol identifier options = send_xcp s 2 identifier protocol options

unfoldable pub send_nak : Ppp → ℕ → ℕ → List ℕ → Event
unfolding send_xcp
send_nak s protocol identifier options = send_xcp s 3 identifier protocol options

abbrev pub is_empty : List ℕ → Bool
is_empty [] = true
is_empty (x ∷ xs) = false

-- An option of CCP: all are rejected.
unfoldable pub ccp_option : List ℕ → ℕ → ℕ → ℕ → List ℕ → Option (List ℕ)
ccp_option data_ type len offset rej = some (rej ++ slice data_ offset len)

unfoldable pub handle_ccp : ℕ → Ppp → List ℕ → Outcome (Ppp × List Event)
unfolding with_code options_loop ccp_option send_rej send_ack
handle_ccp fuel s data_ =
    with_code data_ (s, [])
      (λ code identifier.
        if code == 0x01
        then after (options_loop (ccp_option data_) fuel data_ 8 []) (λ rej. returned (
          s,
          (if is_empty rej
                then send_ack s 0x80fd identifier []
                else send_rej s 0x80fd identifier rej)
              ∷ [],
        ))
        else returned (s, []))

-- An option of IPV6CP.
unfoldable pub ipv6cp_option : List ℕ → ℕ → ℕ → ℕ → List ℕ → Option (List ℕ)
ipv6cp_option data_ type len offset rej =
    some (if type == 0xff then rej else rej ++ slice data_ offset len)

unfoldable pub handle_ipv6cp : ℕ → Ppp → List ℕ → Outcome (Ppp × List Event)
unfolding with_code options_loop ipv6cp_option send_rej send_ack
handle_ipv6cp fuel s data_ =
    with_code data_ (s, [])
      (λ code identifier.
        if code == 0x01
        then after (options_loop (ipv6cp_option data_) fuel data_ 8 []) (λ rej. returned (
          s,
          (if is_empty rej
                then send_ack s 0x8057 identifier []
                else send_rej s 0x8057 identifier rej)
              ∷ [],
        ))
        else (if code == 0x02
            then returned (record s { ipv6cp_options_acked = true }, [])
            else returned (s, [])))
