-- ===== src/Ipv4/Fate.antt =====
-- What becomes of the packets that ipv4.cpp receives: counted once, and delivered or forwarded only if
-- they may be.
use myip.Base.{
  bit_or, shl, ℕ, suc, ◌+◌, ◌≤◌, ◌≡◌, refl, true, false, not, some, List, [], ◌∷◌, ◌==◌, ltb, leb,
  arith, length, take, All, Bool-cases, Option-cases, inl, inr, get_or, bit_and, shr, ◌&&◌, if_elim,
  OnSome, OnSome-some,
}
use myip.Addr.Defs.{same_addr}
use myip.Cache.{update_cache}
use myip.Ipv4.{
  Ipv4, Packet, Event, queued, forwarded, receive, check_ttl, check_sizes, accept, not_for_me,
  learn, registered, pkt_dst, pkt_src,
}

-- The total length in the header.
abbrev pub total_length : Packet → ℕ
total_length pkt = bit_or (shl (get_or pkt.data_ 2 0) 8) (get_or pkt.data_ 3 0)

-- A packet of the log may be delivered, or handed to the router with the bytes of the received one up
-- to its total length, unchanged.
abbrev pub IsAllowed : Ipv4 → Packet → Event → Type 0
IsAllowed s pkt (queued protocol p) =
    (same_addr (pkt_dst pkt.data_) s.myip ≡ true) × (registered s.prot_map protocol ≡ true)
IsAllowed s pkt (forwarded q) =
    (s.forward ≡ true)
    × (same_addr (pkt_dst pkt.data_) s.myip ≡ false)
    × ((bit_and (get_or pkt.data_ 16 0) 0xf0 == 224) ≡ false)
    × (total_length pkt ≤ length pkt.data_)
    × (q.payload ≡ take (total_length pkt) pkt.data_)

abbrev pub n_forwarded : List Event → ℕ
n_forwarded [] = 0
n_forwarded (queued protocol p ∷ log) = n_forwarded log
n_forwarded (forwarded q ∷ log) = suc (n_forwarded log)

-- The log is allowed, and the packet is counted as delivered, as discarded or not at all, if it is
-- forwarded.
abbrev pub IsAccounted : Ipv4 → Packet → Ipv4 × List Event → Type 0
IsAccounted s pkt (s', log) =
    All (IsAllowed s pkt) log
    × (s'.ip_n_pkt ≡ s.ip_n_pkt)
    × (s'.ip_n_disc + s'.ip_n_del + n_forwarded log ≡ s.ip_n_disc + s.ip_n_del + 1)

not_for_me_lem :
    (s : Ipv4) (pkt : Packet)
    → total_length pkt ≤ length pkt.data_
    → same_addr (pkt_dst pkt.data_) s.myip ≡ false
    → IsAccounted s pkt (not_for_me s pkt (total_length pkt))
unfolding not_for_me
not_for_me_lem s pkt fits h =
    if_elim (IsAccounted s pkt) (s.forward && not (bit_and (get_or pkt.data_ 16 0) 0xf0 == 224))
      (λ t.
        let may : (s.forward ≡ true) × ((bit_and (get_or pkt.data_ 16 0) 0xf0 == 224) ≡ false) =
          ground arith in
        (((may.0, h, may.1, fits, refl), tt), refl, omega arith))
      (λ t. (tt, refl, omega arith))

accept_lem :
    (s : Ipv4) (pkt : Packet) (header_size protocol : ℕ)
    → IsAccounted s pkt (accept s pkt header_size (total_length pkt) protocol)
unfolding accept
accept_lem s pkt header_size protocol =
    let size : ℕ = total_length pkt in
    if_elim (IsAccounted s pkt) (ltb (length pkt.data_) size) (λ _. (tt, refl, omega arith))
      (λ whole.
        if_elim (IsAccounted s pkt) (ltb size header_size) (λ _. (tt, refl, omega arith))
          (λ _.
            if_elim (IsAccounted s pkt) (not (registered s.prot_map protocol))
              (λ _. (tt, refl, omega arith))
              (λ known.
                if_elim (IsAccounted s pkt) (not (same_addr (pkt_dst pkt.data_) s.myip))
                  (λ other. not_for_me_lem s pkt (ground arith) (ground arith))
                  (λ mine. (((ground arith, ground arith), tt), refl, omega arith)))))

check_ttl_lem : (s : Ipv4) (pkt : Packet) → IsAccounted s pkt (check_ttl s pkt)
unfolding check_ttl check_sizes
check_ttl_lem s pkt =
    if_elim (IsAccounted s pkt) (leb (get_or pkt.data_ 8 0) 1) (λ _. (tt, refl, omega arith))
      (λ _. accept_lem s pkt _ _)

abbrev IsReceived : Ipv4 → Packet → Ipv4 × List Event → Type 0
IsReceived s pkt (s', log) =
    All (IsAllowed s pkt) log
    × (s'.ip_n_pkt ≡ s.ip_n_pkt + 1)
    × (s'.ip_n_disc + s'.ip_n_del + n_forwarded log ≡ s.ip_n_disc + s.ip_n_del + 1)

receive_lem :
    (s : Ipv4) (interface now : ℕ) (pkt : Packet)
    → ltb (length pkt.data_) 20 ≡ false
    → OnSome (IsReceived s pkt) (receive s interface pkt now)
unfolding receive learn
receive_lem s interface now pkt big =
    let counted : Ipv4 = record s { ip_n_pkt = s.ip_n_pkt + 1; ipv4_n_pkt = s.ipv4_n_pkt + 1 } in
    rw big (
      if_elim (OnSome (IsReceived s pkt)) (not (shr (get_or pkt.data_ 0 0) 4 == 4))
        (λ _. (tt, refl, omega arith))
        (λ _. elim (Bool-cases pkt.is_forwarded) [
          | inl f ↦ rw f (check_ttl_lem counted pkt)
          | inr f ↦
              elim (Option-cases
                (update_cache s.iarp pkt.src_addr (pkt_src pkt.data_) interface false now)) [
                  | inl e ↦ rw (f, e) tt
                  | inr (c, e) ↦ rw (f, e) (check_ttl_lem (record counted { iarp = c }) pkt)
                ]
        ]))

-- Whatever packet of 20 bytes or more arrives, if no assertion fails, it is counted once as received
-- and once as discarded or delivered, except that one which goes to the router is counted as
-- neither. What goes to a layer has this host's address and a protocol that is registered; what goes
-- to the router is for another host, not multicast, only if this host forwards, and consists of the bytes of the
-- received packet up to the total length in its header, which are all there, as they were.
pub receive-accounted :
    (s s' : Ipv4) (interface now : ℕ) (pkt : Packet) (log : List Event)
    → 20 ≤ length pkt.data_
    → receive s interface pkt now ≡ some (s', log)
    → All (IsAllowed s pkt) log
      × (s'.ip_n_pkt ≡ s.ip_n_pkt + 1)
      × (s'.ip_n_disc + s'.ip_n_del + n_forwarded log ≡ s.ip_n_disc + s.ip_n_del + 1)
receive-accounted s s' interface now pkt log big h =
    OnSome-some (IsReceived s pkt) (receive s interface pkt now) (s', log)
      (receive_lem s interface now pkt (ground arith)) h
