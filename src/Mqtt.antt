-- ===== src/Mqtt.antt =====
-- The MQTT broker of mqtt.cpp: the topics and their subscribers, the publishing of a message, and the
-- handling of the messages that a session sends. A session is its number; a topic is the list of its
-- characters. A set of sessions is a list without repetitions: each session has its own queue, so their
-- order does not matter. `none`: a byte behind the buffer of a message is read.
pub mod Messages
pub mod Publish
pub mod Topics
pub mod Wire
use myip.Base.{
  ℕ, zero, suc, ◌+◌, ◌-◌, ◌*◌, ◌/◌, ◌%◌, Bool, true, false, not, ◌||◌, Option, none, some, List, [],
  ◌∷◌, ◌++◌, ◌==◌, ltb, leb, if◌then◌else◌, length, get_or, take, drop, u8, u16, u32, shl, shr,
  bit_and, bit_or, min, same_bytes, ◌>>=◌, be16,
}

abbrev pub Sessions : Type 0
Sessions = List ℕ

-- `topic_subscriptions` and `topic_wc_subscriptions`, and `msgs_out` of each session.
pub record Broker : Type 0 where
  pub topic_subscriptions : List (List ℕ × Sessions)
  pub topic_wc_subscriptions : List (List ℕ × Sessions)
  pub msgs_out : ℕ → List (List ℕ)

abbrev pub has : ℕ → Sessions → Bool
has s [] = false
has s (x ∷ xs) = x == s || has s xs

unfoldable pub insert : ℕ → Sessions → Sessions
insert s xs = if has s xs then xs else xs ++ s ∷ []

unfoldable pub erase : ℕ → Sessions → Sessions
erase s [] = []
erase s (x ∷ xs) = let rest = erase s xs in if x == s then rest else x ∷ rest

-- The subscription of a session to a topic of a table; a new topic comes last.
unfoldable pub add : List ℕ → ℕ → List (List ℕ × Sessions) → List (List ℕ × Sessions)
unfolding insert
add topic s [] = (topic, s ∷ []) ∷ []
add topic s ((t, xs) ∷ table) =
    let rest = add topic s table in
    if same_bytes t topic then (t, insert s xs) ∷ table else (t, xs) ∷ rest

-- Its end: the first entry of the topic.
unfoldable pub remove : List ℕ → ℕ → List (List ℕ × Sessions) → List (List ℕ × Sessions)
unfolding erase
remove topic s [] = []
remove topic s ((t, xs) ∷ table) =
    let rest = remove topic s table in
    if same_bytes t topic then (t, erase s xs) ∷ table else (t, xs) ∷ rest

unfoldable pub remove_all : ℕ → List (List ℕ × Sessions) → List (List ℕ × Sessions)
unfolding erase
remove_all s [] = []
remove_all s ((t, xs) ∷ table) = (t, erase s xs) ∷ remove_all s table

-- `topic.find('#')`, and the characters before it: `topic.substr(0, wc)`.
abbrev pub has_wildcard : List ℕ → Bool
has_wildcard [] = false
has_wildcard (c ∷ topic) = c == 35 || has_wildcard topic

abbrev pub before_wildcard : List ℕ → List ℕ
before_wildcard [] = []
before_wildcard (c ∷ topic) = let rest = before_wildcard topic in if c == 35 then [] else c ∷ rest

unfoldable pub register_topic : List ℕ → ℕ → Broker → Broker
unfolding add
register_topic topic s b =
    if has_wildcard topic
    then record b { topic_wc_subscriptions = add topic s b.topic_wc_subscriptions }
    else record b { topic_subscriptions = add topic s b.topic_subscriptions }

unfoldable pub unregister_topic : List ℕ → ℕ → Broker → Broker
unfolding remove
unregister_topic topic s b = record b {
  topic_subscriptions = remove topic s b.topic_subscriptions;
  topic_wc_subscriptions = remove topic s b.topic_wc_subscriptions;
}

unfoldable pub unregister_all_topics : ℕ → Broker → Broker
unfolding remove_all
unregister_all_topics s b = record b {
  topic_subscriptions = remove_all s b.topic_subscriptions;
  topic_wc_subscriptions = remove_all s b.topic_wc_subscriptions;
}

-- The loop over the remaining length, an `int` of at most five groups.
unfoldable pub length_bytes : ℕ → ℕ → List ℕ
length_bytes zero rem_len = []
length_bytes (suc n) rem_len =
    let rest = length_bytes n (rem_len / 128) in
    if rem_len == 0 then [] else (if leb 128 rem_len then 255 ∷ rest else u8 rem_len ∷ rest)

unfoldable pub publish_message : List ℕ → List ℕ → List ℕ
unfolding length_bytes
publish_message topic payload =
    0x30
    ∷ (length_bytes 5 (2 + length topic + length payload)
        ++ (be16 (length topic) ++ (topic ++ payload)))

-- A message for each session of a set.
unfoldable pub queue_for : Sessions → List ℕ → (ℕ → List (List ℕ)) → ℕ → List (List ℕ)
queue_for [] msg msgs_out = msgs_out
queue_for (s ∷ xs) msg msgs_out =
    queue_for xs msg (λ s'. if s' == s then msgs_out s' ++ msg ∷ [] else msgs_out s')

-- The loops over the two tables: an entry is taken if its topic passes a test.
unfoldable pub queue_matching :
    (List ℕ → Bool) → List (List ℕ × Sessions) → List ℕ → (ℕ → List (List ℕ)) → ℕ → List (List ℕ)
unfolding queue_for
queue_matching test [] msg msgs_out = msgs_out
queue_matching test ((t, xs) ∷ table) msg msgs_out =
    queue_matching test table msg (if test t then queue_for xs msg msgs_out else msgs_out)

-- The tests for a topic that is published.
abbrev pub is_same : List ℕ → List ℕ → Bool
is_same topic t = same_bytes t topic

abbrev pub is_below : List ℕ → List ℕ → Bool
is_below topic t = let prefix = before_wildcard t in same_bytes (take (length prefix) topic) prefix

unfoldable pub publish : List ℕ → List ℕ → Broker → Broker
unfolding publish_message queue_matching
publish topic payload b =
    let msg = publish_message topic payload in
    record b {
      msgs_out =
          queue_matching (is_below topic) b.topic_wc_subscriptions msg
            (queue_matching (is_same topic) b.topic_subscriptions msg b.msgs_out);
    }
