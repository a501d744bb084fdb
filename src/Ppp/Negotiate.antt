-- ===== src/Ppp/Negotiate.antt =====
-- `handle_ipcp` and `handle_lcp` of phys_gen_ppp.cpp: the handlers that change what a link does.
use myip.Base.{
  ℕ, ◌+◌, Bool, true, false, not, ◌&&◌, ◌||◌, Option, none, some, List, [], ◌∷◌, ◌++◌, ltb, leb,
  ◌==◌, if◌then◌else◌, length, get_or, drop, shr, u8,
}
use myip.Addr.Defs.{AnyAddr, ipv4, make, compare_to, get_exactly}
use myip.Ppp.Control.{
  Ppp, Event, control, Outcome, returned, thrown, slice, options_loop, after, with_code, send_rej,
  send_ack, send_nak, is_empty,
}

-- The variables of the loop in `handle_ipcp`.
pub record IpcpScan : Type 0 where
  pub ack : List ℕ
  pub rej : List ℕ
  pub send_nak_with_new_address : Bool

-- An option of IPCP. `none`: the four bytes of the address go behind the vector, or the opponent has
-- no address to compare with.
unfoldable pub ipcp_option : AnyAddr → List ℕ → ℕ → ℕ → ℕ → IpcpScan → Option IpcpScan
unfolding compare_to
ipcp_option opponent_address data_ type len offset s =
    if type == 0x03
    then (if ltb (length data_) (offset + 6)
        then none
        else elim (compare_to (make ipv4 (drop (offset + 2) data_)) opponent_address) [
          | none ↦ none
          | some true ↦ some (record s { ack = s.ack ++ slice data_ offset len })
          | some false ↦ some (record s { send_nak_with_new_address = true })
        ])
    else some (record s { rej = s.rej ++ slice data_ offset len })

-- The answer to the options; `none` is a failed assertion.
unfoldable pub ipcp_answer : Ppp → ℕ → IpcpScan → Option (List Event)
unfolding send_nak send_rej send_ack
ipcp_answer s identifier scan =
    if scan.send_nak_with_new_address
    then elim (get_exactly s.opponent_address 4) [
      | none ↦ none
      | some a ↦ some (send_nak s 0x8021 identifier (3 ∷ 6 ∷ a) ∷ [])
    ]
    else (if not (is_empty scan.rej)
        then some (send_rej s 0x8021 identifier scan.rej ∷ [])
        else (if not (is_empty scan.ack)
            then some (send_ack s 0x8021 identifier scan.ack ∷ [])
            else some []))

-- The request with the address of this side, as long as no request was acknowledged.
unfoldable pub ipcp_request : Ppp → Option (List Event)
ipcp_request s = if s.ipcp_options_acked then some [] else elim s.stack [
  | none ↦ some []
  | some addr ↦ elim (get_exactly addr 4) [
    | none ↦ none
    | some a ↦ some (control 0x8021 (0x01 ∷ 1 ∷ 0 ∷ 10 ∷ 3 ∷ 6 ∷ a) s.accm_tx ∷ [])
  ]
]

-- Options that the other side rejects are only walked over.
unfoldable pub ipcp_rejected : ℕ → ℕ → ℕ → Bool → Option Bool
ipcp_rejected type len offset s = some s

unfoldable pub handle_ipcp : ℕ → Ppp → List ℕ → Outcome (Ppp × List Event)
unfolding with_code options_loop ipcp_option ipcp_answer ipcp_request ipcp_rejected
handle_ipcp fuel s data_ =
    with_code data_ (s, [])
      (λ code identifier.
        if code == 0x01
        then after
            (options_loop (ipcp_option s.opponent_address data_) fuel data_ 8
              (record { ack = []; rej = []; send_nak_with_new_address = false }))
            (λ scan. elim (ipcp_answer s identifier scan) [
              | none ↦ thrown
              | some answer ↦ elim (ipcp_request s) [
                | none ↦ thrown
                | some request ↦ returned (s, answer ++ request)
              ]
            ])
        else (if code == 0x02
            then returned (record s { ipcp_options_acked = true }, [])
            else (if code == 0x04
                then after (options_loop ipcp_rejected fuel data_ 8 true) (λ b. returned (s, []))
                else returned (s, []))))

-- The variables of the loop in `handle_lcp`.
pub record LcpScan : Type 0 where
  pub link : Ppp
  pub ack : List ℕ
  pub rej : List ℕ

-- The copy of `len` bytes behind an option's head into both character maps, which have 32 elements.
unfoldable pub set_accm : Ppp → List ℕ → ℕ → ℕ → Option Ppp
set_accm s data_ len options_offset =
    if leb len 32 && leb (options_offset + len) (length data_)
    then (let accm = slice data_ options_offset len ++ drop len s.accm_rx in
        some (record s {
          accm_rx = accm;
          accm_tx = slice data_ options_offset len ++ drop len s.accm_tx;
        }))
    else none

-- An option of LCP.
unfoldable pub lcp_option : List ℕ → ℕ → ℕ → ℕ → LcpScan → Option LcpScan
unfolding set_accm
lcp_option data_ type len offset s =
    let option_ = slice data_ offset len in
    let acked = record s { ack = s.ack ++ option_ } in
    if type == 1 || type == 5
    then some acked
    else (if type == 2
        then elim (set_accm s.link data_ len (offset + 2)) [
          | none ↦ none
          | some link ↦ some (record acked { link = link })
        ]
        else (if type == 7
            then some (record acked { link = record s.link { protocol_compression = true } })
            else (if type == 8
                then some (record acked { link = record s.link { ac_field_compression = true } })
                else some (record s { rej = s.rej ++ option_ }))))

abbrev pub magic_bytes : Ppp → List ℕ
magic_bytes s = u8 (shr s.magic 24) ∷ u8 (shr s.magic 16) ∷ u8 (shr s.magic 8) ∷ u8 s.magic ∷ []

-- The bytes of this side's request.
unfoldable pub lcp_request : Ppp → List ℕ
lcp_request s =
    let a = λ (i : ℕ). get_or s.accm_rx i 0 in
    0x01
    ∷ 1
    ∷ 0
    ∷ 20
    ∷ 2
    ∷ 6
    ∷ a 0
    ∷ a 1
    ∷ a 2
    ∷ a 3
    ∷ 5
    ∷ 6
    ∷ u8 (shr s.magic 24)
    ∷ u8 (shr s.magic 16)
    ∷ u8 (shr s.magic 8)
    ∷ u8 s.magic
    ∷ 7
    ∷ 2
    ∷ 8
    ∷ 2
    ∷ []

unfoldable pub lcp_answer : LcpScan → ℕ → List Event
unfolding send_rej send_ack
lcp_answer scan identifier =
    if not (is_empty scan.rej)
    then send_rej scan.link 0xc021 identifier scan.rej ∷ []
    else (if not (is_empty scan.ack)
        then send_ack scan.link 0xc021 identifier scan.ack ∷ []
        else [])

-- The code 1: both compressions are off until the options turn them on, and this side's request
-- follows, since `lcp_options_acked` has just been cleared.
unfoldable pub lcp_options : ℕ → Ppp → List ℕ → ℕ → Outcome (Ppp × List Event)
unfolding options_loop lcp_option lcp_answer lcp_request
lcp_options fuel s data_ identifier =
    let cleared = record s {
      protocol_compression = false;
      ac_field_compression = false;
      lcp_options_acked = false;
    } in
    after
      (options_loop (lcp_option data_) fuel data_ 8 (record { link = cleared; ack = []; rej = [] }))
      (λ scan. returned (
        scan.link,
        lcp_answer scan identifier ++ control 0xc021 (lcp_request scan.link) scan.link.accm_tx ∷ [],
      ))

unfoldable pub handle_lcp : ℕ → Ppp → List ℕ → Outcome (Ppp × List Event)
unfolding with_code lcp_options
handle_lcp fuel s data_ =
    with_code data_ (s, [])
      (λ code identifier.
        if code == 0x01
        then lcp_options fuel s data_ identifier
        else (if code == 0x02
            then returned (record s { lcp_options_acked = true }, [])
            else (if code == 0x09
                then returned
                    (s, control 0xc021 (10 ∷ identifier ∷ 0 ∷ 8 ∷ magic_bytes s) s.accm_tx ∷ [])
                else (if code == 0x0c
                    then returned (
                      s,
                      control 0xc021
                            (0x0c
                              ∷ identifier
                              ∷ 0
                              ∷ 12
                              ∷ (magic_bytes s ++ (77 ∷ 121 ∷ 73 ∷ 80 ∷ [])))
                            s.accm_tx
                          ∷ [],
                    )
                    else returned (s, [])))))
