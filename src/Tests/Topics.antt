-- ===== src/Tests/Topics.antt =====
-- The theorems on the MQTT broker at two topics and two sessions.
use myip.Base.{ℕ, ◌≡◌, refl, some, List, [], ◌∷◌, ◌++◌, replicate, arith, same_bytes}
use myip.Mqtt.{Broker, publish, publish_message}
use myip.Mqtt.Messages.{next_message, handle}
use myip.Mqtt.Publish.{publish-subscriptions}
use myip.Mqtt.Wire.{publish_message-forwarded}

-- Session 1 has the topic `a/b`, and the sessions 1 and 2 have `a/#`.
abbrev topic : List ℕ
topic = 97 ∷ 47 ∷ 98 ∷ []

abbrev broker : Broker
broker = record {
  topic_subscriptions = (topic, 1 ∷ []) ∷ [];
  topic_wc_subscriptions = (97 ∷ 47 ∷ 35 ∷ [], 1 ∷ 2 ∷ []) ∷ [];
  msgs_out = λ s. [];
}

publish-subscriptions_example :
    (publish topic (1 ∷ 2 ∷ []) broker).msgs_out 1
    ≡ replicate 2 (publish_message topic (1 ∷ 2 ∷ []))
unfolding same_bytes
publish-subscriptions_example =
    publish-subscriptions topic (1 ∷ 2 ∷ []) broker 1 ((refl, tt), tt) ((refl, (refl, tt)), tt)

-- A subscription of session 2 to `a/b`, and a PING.
abbrev stream : List ℕ
stream = 0x82 ∷ 8 ∷ 0 ∷ 1 ∷ 0 ∷ 3 ∷ 97 ∷ 47 ∷ 98 ∷ 0 ∷ 0xc0 ∷ 0 ∷ []

publish_message-forwarded_example :
    (msg : List ℕ) × (next_message (publish_message topic (1 ∷ 2 ∷ []) ++ 0xc0 ∷ 0 ∷ [])
      ≡ some ((0x30, msg), 0xc0 ∷ 0 ∷ []))
    × (handle 2 0x30 msg broker ≡ some (publish topic (1 ∷ 2 ∷ []) broker, 0x40 ∷ 2 ∷ 0 ∷ 0 ∷ []))
publish_message-forwarded_example =
    publish_message-forwarded topic (1 ∷ 2 ∷ []) (omega arith) (omega arith) 2 broker
      (0xc0 ∷ 0 ∷ [])
