-- ===== src/Mqtt/Messages.antt =====
-- `mqtt_recv_thread` of mqtt.cpp on the bytes of a session.
use myip.Base.{
  ℕ, zero, suc, ◌+◌, ◌-◌, Bool, not, ◌&&◌, Option, none, some, List, [], ◌∷◌, ◌++◌, ◌==◌, ltb, leb,
  if◌then◌else◌, length, get_or, take, drop, u8, u32, shl, shr, bit_and, bit_or, min, be16,
}
use myip.Mqtt.{Broker, register_topic, unregister_topic, unregister_all_topics, publish}

-- The loop over the bytes of the remaining length: the number, and the bytes behind it; `none`: it goes
-- on in bytes that have not come yet.
unfoldable pub remaining_length : ℕ → List ℕ → Option (ℕ × List ℕ)
remaining_length len [] = none
remaining_length len (b ∷ stream) =
    let len' = bit_or (u32 (shl len 7)) (bit_and b 127) in
    let more = remaining_length len' stream in
    if bit_and b 128 == 0 then some (len', stream) else more

-- A message: its first byte and its content, and the bytes behind it.
unfoldable pub next_message : List ℕ → Option ((ℕ × List ℕ) × List ℕ)
unfolding remaining_length
next_message [] = none
next_message (control ∷ stream) = elim (remaining_length 0 stream) [
  | none ↦ none
  | some (len, rest) ↦
      if ltb (length rest) len then none else some ((control, take len rest), drop len rest)
]

-- A text with its length at an offset of a message of `len` bytes. The byte 0 that the code puts behind
-- the message belongs to the text if the length reaches it; `none`: the text goes on behind that byte.
unfoldable pub text_at : List ℕ → ℕ → ℕ → ℕ → Option (List ℕ)
text_at msg len o most =
    let topic_len = min (bit_or (shl (get_or msg o 0) 8) (get_or msg (o + 1) 0)) most in
    if ltb (len + 1) (o + 2 + topic_len)
    then none
    else some (take topic_len (drop (o + 2) (msg ++ 0 ∷ [])))

-- What a message comes to: the broker after it, and the bytes that are sent back.
abbrev pub Handled : Type 0
Handled = Option (Broker × List ℕ)

-- The loops of SUBSCRIBE and UNSUBSCRIBE over the topics, with what each topic does, the bytes behind
-- it and its answer, and the answers so far. A fuel of the length is enough.
unfoldable pub topics_loop :
    (List ℕ → Broker → Broker) → ℕ → ℕ → ℕ → List ℕ → ℕ → Broker → List ℕ → Handled
unfolding text_at
topics_loop each extra answer zero msg o b answers =
    if leb (length msg) o then some (b, answers) else none
topics_loop each extra answer (suc fuel) msg o b answers =
    if leb (length msg) o
    then some (b, answers)
    else elim (text_at msg (length msg) o (length msg - o)) [
      | none ↦ none
      | some topic ↦
          topics_loop each extra answer fuel msg (o + 2 + length topic + extra) (each topic b)
            (answers ++ answer ∷ [])
    ]

-- The answer to them, with the number of the message.
unfoldable pub acknowledged : ℕ → List ℕ → Handled → Handled
acknowledged type msg none = none
acknowledged type msg (some (b, answers)) =
    if ltb (length msg) 1
    then none
    else some (b, type ∷ u8 (2 + length answers) ∷ get_or msg 0 0 ∷ get_or msg 1 0 ∷ answers)

-- PUBLISH: the identifier of the message stands behind the topic for a quality of service above 0.
abbrev pub has_identifier : ℕ → Bool
has_identifier control = not (bit_and (shr control 1) 3 == 0)

abbrev pub payload_offset : ℕ → List ℕ → ℕ
payload_offset control topic =
    if has_identifier control then 2 + length topic + 2 else 2 + length topic

-- A payload that is not empty is published.
abbrev pub pass_on : ℕ → List ℕ → List ℕ → Broker → Broker
pass_on control topic msg b =
    if ltb (payload_offset control topic) (length msg)
    then publish topic (drop (payload_offset control topic) msg) b
    else b

unfoldable pub on_publish : ℕ → List ℕ → Broker → Handled
unfolding text_at
on_publish control msg b = elim (text_at msg (length msg) 0 (length msg)) [
  | none ↦ none
  | some topic ↦
      let o = 2 + length topic in
      let id = bit_or (shl (get_or msg o 0) 8) (get_or msg (o + 1) 0) in
      if has_identifier control && ltb (length msg) (o + 1)
      then none
      else some
          (pass_on control topic msg b, 0x40 ∷ 2 ∷ be16 (if has_identifier control then id else 0))
]

-- The message of a session.
unfoldable pub handle : ℕ → ℕ → List ℕ → Broker → Handled
unfolding topics_loop acknowledged on_publish
handle s control msg b =
    let cmsg = shr control 4 in
    if cmsg == 1
    then some (b, 0x20 ∷ 0x02 ∷ 0x00 ∷ 0x00 ∷ [])
    else (if cmsg == 3
        then on_publish control msg b
        else (if cmsg == 8
            then acknowledged 0x90 msg
                (topics_loop (λ topic. register_topic topic s) 1 2 (length msg) msg 2 b [])
            else (if cmsg == 10
                then acknowledged 0xb0 msg
                    (topics_loop (λ topic. unregister_topic topic s) 0 0 (length msg) msg 2 b [])
                else (if cmsg == 12 then some (b, 0xd0 ∷ 0x00 ∷ []) else some (b, [])))))

-- The messages of a session that have come, one after another: the broker, what was sent back, and the
-- bytes of a message that has not come in full. A fuel of the number of bytes is enough.
unfoldable pub serve : ℕ → ℕ → List ℕ → Broker → List ℕ → Option (Broker × List ℕ × List ℕ)
unfolding next_message handle
serve zero s stream b sent = some (b, sent, stream)
serve (suc fuel) s stream b sent = elim (next_message stream) [
  | none ↦ some (b, sent, stream)
  | some ((control, msg), rest) ↦ elim (handle s control msg b) [
    | none ↦ none
    | some (b', reply) ↦ serve fuel s rest b' (sent ++ reply)
  ]
]

-- The end of the thread.
abbrev pub end_of_thread : ℕ → Broker → Broker
end_of_thread s b = unregister_all_topics s b
