-- ===== src/Mqtt/Wire.antt =====
-- The messages that the broker of mqtt.cpp sends.
use myip.Base.{
  append_assoc, ℕ, zero, suc, ◌+◌, ◌*◌, ◌/◌, ◌%◌, ◌^◌, ◌≡◌, ◌<◌, refl, sym, ap, ◌∙◌, true, false,
  some, List, [], ◌∷◌, ◌++◌, ◌==◌, ltb, leb, not_ltb, lt→ltb, none, arith, length, take, drop, u8,
  shr, bit_and, bit_or, min, bit_and_low, bit_and_digit, bit_or-shl, be16, take-append, drop-append,
  length-append, if◌then◌else◌,
}
use native.Mathlib.Nat.{pow-suc}
use myip.Tcp.Segment.{be16_value}
use myip.Tcp.Wire.{be16_value-be16}
use myip.Mqtt.{Broker, length_bytes, publish_message, publish}
use myip.Mqtt.Messages.{remaining_length, next_message, text_at, on_publish, handle}

bit_and_high : (k n : ℕ) → n < 2 ^ k → bit_and n (2 ^ k) ≡ 0
bit_and_high zero n h = let e : n ≡ 0 = omega arith in rw e refl
bit_and_high (suc k) n h =
    let double : 2 ^ suc k ≡ 2 * 2 ^ k = pow-suc 2 k ∙ omega arith in
    let half : 2 ^ suc k / 2 ≡ 2 ^ k = omega arith in
    let even : 2 ^ suc k % 2 ≡ 0 = omega arith in
    bit_and_digit n (2 ^ suc k)
    ∙ rw (half, even) (let ih = bit_and_high k (n / 2) (omega arith) in omega arith)

length_bytes-short : (n : ℕ) → 0 < n → n < 128 → length_bytes 5 n ≡ n ∷ []
unfolding length_bytes
length_bytes-short n h k =
    let nonzero : (n == 0) ≡ false = ground arith in
    let small : leb 128 n ≡ false = ground arith in
    let gone : n / 128 ≡ 0 = omega arith in
    let byte : u8 n ≡ n = omega arith in rw (nonzero, small, gone, byte) refl

remaining_length-short :
    (n : ℕ) (stream : List ℕ) → n < 128 → remaining_length 0 (n ∷ stream) ≡ some (n, stream)
unfolding remaining_length
remaining_length-short n stream h =
    let low : bit_and n 127 ≡ n = bit_and_low 7 n ∙ omega arith in
    let last : bit_and n 128 ≡ 0 = bit_and_high 7 n h in
    let joined : bit_or 0 n ≡ n = bit_or-shl 7 0 n h ∙ omega arith in
    rw (last, low) (ap (λ (m : ℕ). some (m, stream)) joined)

module _ (topic payload : List ℕ) (some_payload : 0 < length payload)
    (size : 2 + length topic + length payload < 128) where
  -- What stands behind the head of the message.
  abbrev content : List ℕ
  content = be16 (length topic) ++ (topic ++ payload)

  content-length : length content ≡ 2 + length topic + length payload
  content-length = omega (arith, length-append topic payload)

  publish_message-bytes : publish_message topic payload ≡ 0x30 ∷ length content ∷ content
  unfolding publish_message
  publish_message-bytes =
      ap (λ q. 0x30 ∷ (q ++ content))
        (length_bytes-short (2 + length topic + length payload) (omega arith) size)
      ∙ ap (λ (n : ℕ). 0x30 ∷ n ∷ content) (sym content-length)

  next_message-publish_message :
      (rest : List ℕ)
      → next_message (publish_message topic payload ++ rest) ≡ some ((0x30, content), rest)
  unfolding next_message
  next_message-publish_message rest =
      let there : ltb (length (content ++ rest)) (length content) ≡ false =
        not_ltb (length (content ++ rest)) (length content)
          (omega (arith, length-append content rest)) in
      ap (λ q. next_message (q ++ rest)) publish_message-bytes
      ∙ rw
          (
            next_message,
            remaining_length-short (length content) (content ++ rest)
                (omega (arith, content-length)),
            there,
            take-append content rest,
            drop-append content rest,
          )
          refl

  text_at-content : text_at content (length content) 0 (length content) ≡ some topic
  unfolding text_at
  text_at-content =
      let most : min (be16_value (u8 (shr (length topic) 8)) (u8 (length topic))) (length content)
          ≡ length topic =
        ap (λ (n : ℕ). min n (length content)) (be16_value-be16 (length topic))
        ∙ omega (arith, content-length) in
      let room : ltb (length content + 1) (2 + length topic) ≡ false =
        not_ltb (length content + 1) (2 + length topic) (omega (arith, content-length)) in
      ap
        (λ (n : ℕ).
          if ltb (length content + 1) (2 + n)
          then none
          else some (take n ((topic ++ payload) ++ 0 ∷ [])))
        most
      ∙ rw room (
          ap (λ (t : List ℕ). some (take (length topic) t)) (append_assoc topic payload (0 ∷ []))
          ∙ ap some (take-append topic (payload ++ 0 ∷ [])))

  handle-content :
      (s : ℕ) (b : Broker)
      → handle s 0x30 content b ≡ some (publish topic payload b, 0x40 ∷ 2 ∷ 0 ∷ 0 ∷ [])
  unfolding handle on_publish
  handle-content s b =
      let more : ltb (2 + length topic) (length content) ≡ true =
        lt→ltb (2 + length topic) (length content) (omega (arith, content-length)) in
      let two : 2 + length topic ≡ suc (suc (length topic)) = omega arith in
      let dropped : drop (2 + length topic) content ≡ payload =
        ap (λ (n : ℕ). drop n content) two ∙ drop-append topic payload in
      rw (handle, on_publish, text_at-content, more, dropped) refl

  -- The message of the broker for a topic and a payload that is not empty, of less than 128 bytes behind
  -- its head, is read by a broker as one message, whatever follows, and published there under the same
  -- topic with the same payload.
  pub publish_message-forwarded :
      (s : ℕ) (b : Broker) (rest : List ℕ)
      → (msg : List ℕ) × (next_message (publish_message topic payload ++ rest)
          ≡ some ((0x30, msg), rest))
        × (handle s 0x30 msg b ≡ some (publish topic payload b, 0x40 ∷ 2 ∷ 0 ∷ 0 ∷ []))
  publish_message-forwarded s b rest =
      (content, next_message-publish_message rest, handle-content s b)
