-- ===== src/Udp.antt =====
-- `class udp` of udp.cpp: the dispatch of a datagram to the handler of its port, the sending of one,
-- and the allocation of ports.
pub mod Delivery
use myip.Base.{
  ℕ, zero, suc, ◌+◌, ◌-◌, ◌%◌, Bool, true, false, not, Option, none, some, List, [], ◌∷◌, ◌++◌,
  ◌==◌, ltb, if◌then◌else◌, length, get_or, set, drop, replicate, shl, shr, u8, bit_or,
}
use myip.Base.Assoc.{find, insert, erase, update}
use myip.Addr.Defs.{AnyAddr}
use myip.Checksum.{tcp_udp_checksum}

-- `callbacks`, of handlers of a type `H`, and `allocated_ports` with the times of their use.
pub record Udp {ℓ} (H : Type ℓ) : Type ℓ where
  pub callbacks : List (ℕ × H)
  pub allocated_ports : List (ℕ × ℕ)

-- What becomes of a datagram: dropped, refused (an ICMP message is sent), or passed to a handler with
-- its source port, its destination port and its payload.
pub data Outcome {ℓ} (H : Type ℓ) : Type ℓ where
  too_small : Outcome H
  refused : Outcome H
  called : (h : H) → (src_port : ℕ) → (dst_port : ℕ) → (payload : List ℕ) → Outcome H

abbrev be16_at : List ℕ → ℕ → ℕ
be16_at p i = bit_or (shl (get_or p i 0) 8) (get_or p (i + 1) 0)

module _ {ℓ} {H : Type ℓ} where
  -- The body of the loop of `operator()`, on the bytes of a packet.
  unfoldable pub dispatch : Udp H → List ℕ → Outcome H
  dispatch u p = if ltb (length p) 8 then too_small else elim (find (be16_at p 2) u.callbacks) [
    | none ↦ refused
    | some h ↦ called h (be16_at p 0) (be16_at p 2) (drop 8 p)
  ]

  unfoldable pub add_handler : Udp H → ℕ → H → Udp H
  unfolding insert
  add_handler u port h = record u { callbacks = insert port h u.callbacks }

  unfoldable pub remove_handler : Udp H → ℕ → Udp H
  unfolding erase
  remove_handler u port = record u { callbacks = erase port u.callbacks }

  -- The loop of `allocate_port` over the random numbers that it draws, at most ten; -1 is `none`.
  unfoldable pub allocate_loop : ℕ → Udp H → List ℕ → ℕ → Option ℕ × Udp H
  unfolding insert
  allocate_loop zero u rnds now = (none, u)
  allocate_loop (suc n) u [] now = (none, u)
  allocate_loop (suc n) u (rnd ∷ rnds) now =
      let test_port = rnd % 32768 + 1000 in
      elim (find test_port u.allocated_ports) [
        | none ↦
            (some test_port, record u { allocated_ports = insert test_port now u.allocated_ports })
        | some ts ↦ allocate_loop n u rnds now
      ]

  unfoldable pub allocate_port : Udp H → List ℕ → ℕ → Option ℕ × Udp H
  unfolding allocate_loop
  allocate_port u rnds now = allocate_loop 10 u rnds now

  unfoldable pub unallocate_port : Udp H → ℕ → Udp H
  unfolding erase
  unallocate_port u port = record u { allocated_ports = erase port u.allocated_ports }

  unfoldable pub update_port_ts : Udp H → ℕ → ℕ → Udp H
  unfolding update
  update_port_ts u port now = record u { allocated_ports = update port now u.allocated_ports }

-- The bytes of a datagram before its checksum, and with it.
unfoldable pub without_checksum : ℕ → ℕ → List ℕ → List ℕ
without_checksum dst_port src_port payload =
    let out_size = 8 + length payload in
    u8 (shr src_port 8)
    ∷ u8 src_port
    ∷ u8 (shr dst_port 8)
    ∷ u8 dst_port
    ∷ u8 (shr out_size 8)
    ∷ u8 out_size
    ∷ 0
    ∷ 0
    ∷ payload

unfoldable pub with_checksum : List ℕ → ℕ → List ℕ
with_checksum out checksum = set (set out 6 (u8 (shr checksum 8))) 7 (u8 checksum)

-- What `transmit_packet` does: the bytes that go to the device, if there is one.
pub data Transmitted : Type 0 where
  -- The families differ, and `false` is returned.
  other_family : Transmitted
  -- An assertion of the checksum fails.
  aborted : Transmitted
  sent : (out : List ℕ) → Transmitted

unfoldable pub transmit_packet : AnyAddr → ℕ → AnyAddr → ℕ → List ℕ → Transmitted
unfolding without_checksum with_checksum tcp_udp_checksum
transmit_packet dst_ip dst_port src_ip src_port payload =
    if dst_ip.addr_size == src_ip.addr_size
    then (let out = without_checksum dst_port src_port payload in
        elim (tcp_udp_checksum dst_ip src_ip false out) [
          | none ↦ aborted
          | some checksum ↦ sent (with_checksum out checksum)
        ])
    else other_family
