-- ===== src/Udp/Delivery.antt =====
-- Which handler a datagram of udp.cpp reaches, and with what.
use myip.Base.{
  ℕ, zero, suc, ◌+◌, ◌%◌, ◌<◌, ◌≤◌, ◌≡◌, ap, ◌∙◌, false, none, some, List, [], ◌∷◌, ◌==◌,
  if◌then◌else◌, arith, Option-cases, inl, inr, u8, shr,
}
use myip.Base.Assoc.{find, insert, find-insert, find-erase, insert-present}
use myip.Addr.Defs.{AnyAddr}
use myip.Tcp.Wire.{be16_value-be16}
use myip.Checksum.{tcp_udp_checksum}
use myip.Tcp.Segment.{be16_value}
use myip.Udp.{
  Udp, Outcome, called, refused, dispatch, add_handler, remove_handler, without_checksum,
  with_checksum, transmit_packet, sent, allocate_loop,
}

module _ {ℓ} {H : Type ℓ} where
  -- What becomes of a payload for a port.
  abbrev pub routed : Udp H → ℕ → ℕ → List ℕ → Outcome H
  routed u src_port dst_port payload = elim (find dst_port u.callbacks) [
    | none ↦ refused
    | some h ↦ called h src_port dst_port payload
  ]

  dispatch-with_checksum :
      (u : Udp H) (dst_port src_port sum : ℕ) (payload : List ℕ)
      → dst_port < 65536
      → src_port < 65536
      → dispatch u (with_checksum (without_checksum dst_port src_port payload) sum)
        ≡ routed u src_port dst_port payload
  unfolding dispatch with_checksum without_checksum
  dispatch-with_checksum u dst_port src_port sum payload h k =
      let read : dispatch u (with_checksum (without_checksum dst_port src_port payload) sum)
          ≡ routed u (be16_value (u8 (shr src_port 8)) (u8 src_port))
              (be16_value (u8 (shr dst_port 8)) (u8 dst_port)) payload =
        ground arith in
      read
      ∙ ap (λ t. routed u (be16_value (u8 (shr src_port 8)) (u8 src_port)) t payload)
          (be16_value-be16 dst_port ∙ omega arith)
      ∙ ap (λ t. routed u t dst_port payload) (be16_value-be16 src_port ∙ omega arith)

  -- A datagram that `transmit_packet` has sent reaches the handler of its destination port at the other
  -- end, with its source port and its payload; without such a handler it is refused.
  pub dispatch-transmit_packet :
      (u : Udp H) (dst_ip src_ip : AnyAddr) (dst_port src_port : ℕ) (payload out : List ℕ)
      → dst_port < 65536
      → src_port < 65536
      → transmit_packet dst_ip dst_port src_ip src_port payload ≡ sent out
      → dispatch u out ≡ routed u src_port dst_port payload
  unfolding transmit_packet
  dispatch-transmit_packet u dst_ip src_ip dst_port src_port payload out h k e =
      let out' = without_checksum dst_port src_port payload in
      elim (Option-cases (tcp_udp_checksum dst_ip src_ip false out')) [
        | inl n ↦ absurd (ground arith)
        | inr (sum, n) ↦
            let q : out ≡ with_checksum out' sum = ground arith in
            rw q (dispatch-with_checksum u dst_port src_port sum payload h k)
      ]

  -- For a port without a handler: the first one stays until it is removed, a second `add_handler` for the port changes
  -- nothing, and after `remove_handler` the port has none.
  pub add_handler-remove_handler :
      (u : Udp H) (port other : ℕ) (h g : H)
      → find port u.callbacks ≡ none
      → (add_handler (add_handler u port h) port g ≡ add_handler u port h)
        × (find other (add_handler u port h).callbacks
            ≡ (if port == other then some h else find other u.callbacks))
        × (find other (remove_handler (add_handler u port h) port).callbacks
            ≡ find other u.callbacks)
  unfolding add_handler remove_handler
  add_handler-remove_handler u port other h g e =
      let p = find-insert port port h u.callbacks e in
      (
        ap (λ t. record u { callbacks = t }) (insert-present port g h _ (p ∙ ground arith)),
        find-insert other port h u.callbacks e,
        ground (
          arith,
          find-erase other port (insert port h u.callbacks),
          find-insert other port h u.callbacks e,
        ),
      )

  -- A port that the loop of `allocate_port` returns, after any number of draws, was not in use, lies from 1000 to 33767, and is in use then.
  pub allocate_port-free :
      (n : ℕ) (u v : Udp H) (rnds : List ℕ) (now port : ℕ)
      → allocate_loop n u rnds now ≡ (some port, v)
      → (find port u.allocated_ports ≡ none)
        × (1000 ≤ port)
        × (port ≤ 33767)
        × (find port v.allocated_ports ≡ some now)
  unfolding allocate_loop
  allocate_port-free zero u v rnds now port e = ground arith
  allocate_port-free (suc n) u v [] now port e = ground arith
  allocate_port-free (suc n) u v (rnd ∷ rnds) now port e =
      let test_port = rnd % 32768 + 1000 in
      elim (Option-cases (find test_port u.allocated_ports)) [
        | inl h ↦ ground (arith, find-insert test_port test_port now u.allocated_ports h)
        | inr (ts, h) ↦ ground (arith, allocate_port-free n u v rnds now port)
      ]
