-- ===== src/Ppp/Device.antt =====
-- `process_incoming_packet` and `transmit_packet` of phys_gen_ppp.cpp, and the receiving loop and
-- `transmit_low` of phys_ppp.cpp; the emulation of a modem there is left out.
use myip.Base.{
  ℕ, ◌-◌, true, false, not, ◌&&◌, none, some, List, [], ◌∷◌, ◌++◌, ltb, ◌==◌, if◌then◌else◌, length,
  get_or, take, drop, shl, bit_and, bit_or,
}
use myip.Ppp.{wrap_in_ppp_frame, unwrap_ppp_frame}
use myip.Ppp.Control.{
  Ppp, Event, queued, Outcome, returned, thrown, after, handle_ccp, handle_ipv6cp,
}
use myip.Ppp.Negotiate.{handle_ipcp, handle_lcp}

-- The bytes that were compressed away are put back: the address and the control field, then the
-- first byte of the protocol.
unfoldable pub with_address : Ppp → List ℕ → List ℕ
with_address s p =
    if not (get_or p 0 0 == 0xff) && s.ac_field_compression then 0xff ∷ 0x03 ∷ p else p

unfoldable pub with_protocol : Ppp → List ℕ → List ℕ
with_protocol s p =
    if bit_and (get_or p 2 0) 1 == 1 && s.protocol_compression
    then take 2 p ++ 0x00 ∷ drop 2 p
    else p

-- The packet for the IPv4 stack: all but four bytes in front and two behind.
unfoldable pub ip_packet : Ppp → List ℕ → Outcome (Ppp × List Event)
ip_packet s p = elim s.stack [
  | none ↦ returned (s, [])
  | some addr ↦
      if ltb (length p) 6
      then thrown
      else returned (s, queued (take (length p - 6) (drop 4 p)) ∷ [])
]

unfoldable pub by_protocol : ℕ → Ppp → List ℕ → ℕ → Outcome (Ppp × List Event)
unfolding ip_packet handle_lcp handle_ipcp handle_ipv6cp handle_ccp
by_protocol fuel s p protocol =
    if protocol == 0x0021
    then ip_packet s p
    else (if protocol == 0xc021
        then handle_lcp fuel s p
        else (if protocol == 0x8021
            then handle_ipcp fuel s p
            else (if protocol == 0x8057
                then handle_ipv6cp fuel s p
                else (if protocol == 0x80fd then handle_ccp fuel s p else returned (s, [])))))

unfoldable pub process_incoming_packet : ℕ → Ppp → List ℕ → Outcome (Ppp × List Event)
unfolding with_address with_protocol by_protocol
process_incoming_packet fuel s packet_buffer =
    if ltb (length packet_buffer) 4
    then returned (s, [])
    else (let p = with_protocol s (with_address s packet_buffer) in
        by_protocol fuel s p (bit_or (shl (get_or p 2 0) 8) (get_or p 3 0)))

-- The bytes that `transmit_low` writes for an IP packet and for a control packet.
unfoldable pub transmit_packet : Ppp → List ℕ → List ℕ
unfolding wrap_in_ppp_frame
transmit_packet s payload =
    wrap_in_ppp_frame s.ac_field_compression s.protocol_compression payload 0x0021 s.accm_tx true

unfoldable pub transmit_control : Ppp → ℕ → List ℕ → List ℕ → List ℕ
unfolding wrap_in_ppp_frame
transmit_control s protocol out accm =
    wrap_in_ppp_frame s.ac_field_compression s.protocol_compression out protocol accm false

-- A flag byte ends what has been collected, unless that is nothing.
unfoldable pub on_flag : ℕ → Ppp → List ℕ → Outcome (Ppp × List Event)
unfolding unwrap_ppp_frame process_incoming_packet
on_flag fuel s [] = returned (s, [])
on_flag fuel s (b ∷ packet_buffer) = elim (unwrap_ppp_frame (b ∷ packet_buffer)) [
  | none ↦ thrown
  | some unwrapped ↦ process_incoming_packet fuel s unwrapped
]

-- `phys_ppp::operator()` on the bytes of a line: the link, the events, and `packet_buffer` at the end.
unfoldable pub receive : ℕ → Ppp → List ℕ → List ℕ → Outcome (Ppp × List Event × List ℕ)
unfolding on_flag
receive fuel s packet_buffer [] = returned (s, [], packet_buffer)
receive fuel s packet_buffer (buffer ∷ line) = elim (buffer == 0x7e) [
  | true ↦
      after (on_flag fuel s packet_buffer)
        (λ r. after (receive fuel r.0 [] line) (λ t. returned (t.0, r.1 ++ t.1, t.2)))
  | false ↦ receive fuel s (packet_buffer ++ buffer ∷ []) line
]
