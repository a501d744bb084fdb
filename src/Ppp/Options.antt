-- ===== src/Ppp/Options.antt =====
-- The options of the control protocols of phys_gen_ppp.cpp.
use myip.Base.{
  ℕ, zero, suc, ◌+◌, ◌-◌, ◌<◌, ◌≤◌, ◌≡◌, refl, ap, ◌∙◌, true, false, Option, some, List, [], ◌∷◌,
  ◌++◌, arith, length, drop, get_or, ltb,
}
use myip.Ppp.Control.{
  send_xcp, xcp, Ppp, control, returned, stuck, options_loop, with_code, handle_ccp, ccp_option,
  send_ack, slice,
}
use myip.Ppp.Negotiate.{set_accm, handle_lcp, lcp_request, lcp_options, lcp_answer, lcp_option}

-- One round of the loop.
options_loop-step :
    {S : Type 0} (handle : ℕ → ℕ → ℕ → S → Option S) (fuel : ℕ) (data_ : List ℕ) (offset : ℕ)
    (s s' : S)
    → let len = get_or data_ (offset + 1) 0 in
      offset + 2 < length data_
      → len ≤ length data_ - offset
      → handle (get_or data_ offset 0) len offset s ≡ some s'
      → options_loop handle (suc fuel) data_ offset s
        ≡ options_loop handle fuel data_ (offset + len) s'
unfolding options_loop
options_loop-step {S} handle fuel data_ offset s s' h fits e =
    let more : ltb offset (length data_ - 2) ≡ true = ground arith in
    let whole : ltb (length data_ - offset) (get_or data_ (offset + 1) 0) ≡ false = ground arith in
    rw (options_loop, more, whole, e) refl

-- An option of the length 0 keeps the loop where it is.
options_loop-zero :
    (fuel : ℕ) (data_ : List ℕ) (offset : ℕ) (rej : List ℕ)
    → offset + 2 < length data_
    → get_or data_ (offset + 1) 0 ≡ 0
    → options_loop (ccp_option data_) fuel data_ offset rej ≡ stuck
unfolding options_loop ccp_option
options_loop-zero zero data_ offset rej h k = refl
options_loop-zero (suc fuel) data_ offset rej h k =
    let len = get_or data_ (offset + 1) 0 in
    let same : offset + len ≡ offset = omega (arith, k) in
    let rej' : List ℕ = rej ++ slice data_ offset len in
    options_loop-step (ccp_option data_) fuel data_ offset rej rej' h (omega (arith, k)) refl
    ∙ ap (λ o. options_loop (ccp_option data_) fuel data_ o rej') same
    ∙ options_loop-zero fuel data_ offset rej' h k

-- A CCP request whose first option has the length 0, with two bytes of a check sequence or more
-- behind that, keeps the thread in the loop: no fuel is enough.
handle_ccp-endless :
    (fuel : ℕ) (s : Ppp) (a b c d identifier type x y : ℕ) (rest : List ℕ)
    → handle_ccp fuel s (a ∷ b ∷ c ∷ d ∷ 1 ∷ identifier ∷ 0 ∷ 8 ∷ type ∷ 0 ∷ x ∷ y ∷ rest) ≡ stuck
unfolding handle_ccp with_code
handle_ccp-endless fuel s a b c d identifier type x y rest =
    let data_ : List ℕ = a ∷ b ∷ c ∷ d ∷ 1 ∷ identifier ∷ 0 ∷ 8 ∷ type ∷ 0 ∷ x ∷ y ∷ rest in
    let big : ltb (length data_) 8 ≡ false = ground arith in
    let whole : ltb (length data_) 12 ≡ false = ground arith in
    rw (big, whole, options_loop-zero fuel data_ 8 [] (omega arith) refl) refl

-- An end of a PPP line that gets the request of another end, in a frame, turns both compressions on,
-- takes over the first four bytes of the character map, acknowledges all options as they were, and
-- sends its own request. The map's bytes 4 and 5 become 5 and 6, the head of the next option, since
-- the copy takes as many bytes as the option has with its head.
pub handle_lcp-lcp_request :
    (fuel : ℕ) (a b : Ppp) (x y : ℕ)
    → let m = λ (i : ℕ). get_or a.accm_rx i 0 in
      let request = lcp_request a in
      (b' : Ppp) × (handle_lcp
          (suc (suc (suc (suc (suc fuel)))))
          b
          (0xff ∷ 0x03 ∷ 0xc0 ∷ 0x21 ∷ (request ++ x ∷ y ∷ []))
        ≡ returned (
          b',
          control 0xc021 (2 ∷ 1 ∷ 0 ∷ 20 ∷ drop 4 request) b'.accm_tx
              ∷ control 0xc021 (lcp_request b') b'.accm_tx
              ∷ [],
        ))
      × (b'.protocol_compression ≡ true)
      × (b'.ac_field_compression ≡ true)
      × (b'.accm_tx ≡ m 0 ∷ m 1 ∷ m 2 ∷ m 3 ∷ 5 ∷ 6 ∷ drop 6 b.accm_tx)
      × (b'.accm_rx ≡ m 0 ∷ m 1 ∷ m 2 ∷ m 3 ∷ 5 ∷ 6 ∷ drop 6 b.accm_rx)
unfolding handle_lcp with_code lcp_options lcp_option set_accm options_loop lcp_answer lcp_request
    send_ack send_xcp xcp
handle_lcp-lcp_request fuel a b x y =
    let m = λ (i : ℕ). get_or a.accm_rx i 0 in
    let first = λ (accm : List ℕ). m 0 ∷ m 1 ∷ m 2 ∷ m 3 ∷ 5 ∷ 6 ∷ drop 6 accm in
    let b' : Ppp = record b {
      protocol_compression = true;
      ac_field_compression = true;
      lcp_options_acked = false;
      accm_tx = first b.accm_tx;
      accm_rx = first b.accm_rx;
    } in
    (b', refl, refl, refl, refl, refl)
