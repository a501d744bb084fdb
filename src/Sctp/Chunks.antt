-- ===== src/Sctp/Chunks.antt =====
-- The chunks that sctp.cpp receives, and its answers to them, HMAC given.
use myip.Base.{
  ℕ, zero, suc, ◌+◌, ◌-◌, ◌%◌, Bool, true, false, Option, none, some, List, [], ◌∷◌, ◌++◌, ◌==◌,
  ltb, if◌then◌else◌, length, u8, u32, ◌>>=◌, be16, be32, same_bytes,
}
use myip.Base.Assoc.{find, insert, update}
use myip.Buffer.{
  BufferIn, get_net_short, get_net_long, get_segment, seek, end_reached, get_n_bytes_left, peek,
  add_padding,
}
use myip.Sctp.{
  Session, Listener, Sctp, new_session, new_data, addr_bytes, Context, Work, chunk_gen_abort,
  chunk_gen_shutdown, chunk_gen_cookie_ack,
}

-- What a handler of a chunk comes to: a result, an exception of the reader, or a loop that has used up
-- its fuel.
pub data Outcome (A : Type 0) : Type 0 where
  returned : (a : A) → Outcome A
  thrown endless : Outcome A

abbrev pub outcome : {A : Type 0} → Option A → Outcome A
outcome none = thrown
outcome (some a) = returned a

-- The bytes up to a multiple of four.
abbrev pub padding_of : ℕ → ℕ
padding_of len = if len % 4 == 0 then 0 else 4 - len % 4

unfoldable pub skip_padding : ℕ → BufferIn → Option BufferIn
skip_padding len b = if len % 4 == 0 then some b else seek b (padding_of len)

unfoldable pub get_parameter : BufferIn → Option ((ℕ × BufferIn) × BufferIn)
unfolding skip_padding
get_parameter chunk_payload = do
  t ← get_net_short chunk_payload
  l ← get_net_short t.1
  if ltb l.0 4
      then none
      else do v ← get_segment l.1 (l.0 - 4); rest ← skip_padding l.0 v.1; some ((t.0, v.0), rest)

-- The loop over the parameters of an INIT chunk; a fuel of its size is enough.
unfoldable pub parameters : ℕ → BufferIn → Outcome BufferIn
unfolding get_parameter
parameters zero b = if end_reached b then returned b else endless
parameters (suc fuel) b =
    if end_reached b
    then returned b
    else elim (get_parameter b) [ none ↦ thrown | some r ↦ parameters fuel r.1 ]

-- What `chunk_init` reads in front of the parameters: the tag and the number of the other side.
unfoldable pub init_head : BufferIn → Option ((ℕ × ℕ) × BufferIn)
init_head chunk = do
  initiate_tag ← get_net_long chunk
  a_rwnd ← get_net_long initiate_tag.1
  outbound ← get_net_short a_rwnd.1
  inbound ← get_net_short outbound.1
  tsn ← get_net_long inbound.1
  some ((initiate_tag.0, tsn.0), tsn.1)

unfoldable pub chunk_heartbeat_request : BufferIn → List ℕ
chunk_heartbeat_request chunk =
    let content = peek chunk in add_padding (5 ∷ 0 ∷ (be16 (4 + length content) ++ content)) 4

-- The data of a chunk with a number: only the next one is passed on. The SACK has the number that was
-- waited for before.
abbrev pub taken_data : Session → Listener → ℕ → List ℕ → Session × Option (List ℕ × Bool) × List ℕ
taken_data s l current_tsn payload =
    let sack = 3 ∷ 3 ∷ 0 ∷ 16 ∷ (be32 s.their_tsn ++ (be32 4096 ++ 0 ∷ 0 ∷ 0 ∷ 0 ∷ [])) in
    let next : Session = record s { their_tsn = u32 (s.their_tsn + 1) } in
    if current_tsn == s.their_tsn
    then (next, some (payload, l.new_data next payload), sack)
    else (s, none, sack)

-- `chunk_data`: the session after it, what its application was given and has answered, and the reply.
unfoldable pub chunk_data :
    Session → Listener → BufferIn → Option (Session × Option (List ℕ × Bool) × List ℕ)
chunk_data s l chunk = do
  tsn ← get_net_long chunk
  stream ← get_net_short tsn.1
  nr ← get_net_short stream.1
  identifier ← get_net_long nr.1
  some (taken_data s l tsn.0 (peek identifier.1))

-- The answers to a DATA chunk.
unfoldable pub answer_data : Work → ℕ → Session × Option (List ℕ × Bool) × List ℕ → Work
answer_data w hash (s, none, sack) = record w {
  reply = w.reply ++ sack;
  tag = s.their_verification_tag;
}
answer_data w hash (s, some (payload, go_on), sack) = record w {
  sctp = record w.sctp { sessions = update hash s w.sctp.sessions };
  reply = w.reply ++ (sack ++ (if go_on then [] else chunk_gen_shutdown));
  tag = s.their_verification_tag;
  events = w.events ++ new_data s payload ∷ [];
}

unfoldable pub on_data : Context → Work → BufferIn → Option Work
unfolding chunk_data answer_data
on_data c w chunk = elim (find c.destination_port w.sctp.listeners) [
  | none ↦ some (record w { reply = w.reply ++ chunk_gen_abort; terminate_session = true })
  | some l ↦ elim (find c.hash w.sctp.sessions) [
    | none ↦ some w
    | some s ↦ elim (chunk_data s l chunk) [ none ↦ none | some r ↦ some (answer_data w c.hash r) ]
  ]
]

abbrev pub session_of : Context → ℕ → ℕ → ℕ → Session
session_of c their_verification_tag their_tsn my_tsn = record {
  my_addr = c.dst_addr;
  my_port = c.destination_port;
  their_addr = c.their_addr;
  their_port = c.source_port;
  my_tsn = my_tsn;
  their_tsn = their_tsn;
  my_stream_sequence_nr = 0;
  their_verification_tag = their_verification_tag;
}

-- A COOKIE ECHO chunk that is one of ours, on a port that is listened to.
unfoldable pub open_session : Context → Work → Session → Work
open_session c w s = elim (find c.hash w.sctp.sessions) [
  | some old ↦ w
  | none ↦ record w {
    sctp = record w.sctp { sessions = insert c.hash s w.sctp.sessions };
    events = w.events ++ new_session s ∷ [];
  }
]

-- The part of a cookie that the HMAC is over.
unfoldable pub cookie_body : Sctp → Context → ℕ → ℕ → ℕ → List ℕ
cookie_body t c their_verification_tag their_initial_tsn my_initial_tsn =
    be32 their_verification_tag
    ++ (be32 their_initial_tsn
        ++ (be32 my_initial_tsn
            ++ u8 c.their_addr.addr_size
              ∷ (addr_bytes c.their_addr
                  ++ (be16 c.source_port
                      ++ (be16 c.destination_port ++ be32 t.state_cookie_key_timestamp)))))

module _ (hmac : List ℕ → List ℕ) where
  -- `generate_state_cookie`
  unfoldable pub state_cookie : Sctp → Context → ℕ → ℕ → ℕ → List ℕ
  unfolding cookie_body
  state_cookie t c their_verification_tag their_initial_tsn my_initial_tsn =
      let sc = cookie_body t c their_verification_tag their_initial_tsn my_initial_tsn in
      sc ++ hmac sc

  -- The INIT ACK that `chunk_init` generates.
  unfoldable pub init_ack : Sctp → Context → ℕ × ℕ → ℕ → ℕ → List ℕ
  unfolding state_cookie
  init_ack t c (my_tag, my_tsn) initiate_tag their_initial_tsn =
      let cookie = state_cookie t c initiate_tag their_initial_tsn my_tsn in
      add_padding
        (2
          ∷ 0
          ∷ (be16 (24 + length cookie)
              ++ (be32 my_tag
                  ++ (be32 4096
                      ++ (be16 1
                          ++ (be16 1
                              ++ (be32 my_tsn
                                  ++ (be16 7 ++ (be16 (4 + length cookie) ++ cookie)))))))))
        4

  -- `chunk_init`: the other side's tag, and the INIT ACK.
  unfoldable pub chunk_init : Sctp → Context → ℕ × ℕ → BufferIn → Outcome (ℕ × List ℕ)
  unfolding parameters init_ack init_head
  chunk_init t c drawn chunk = elim (init_head chunk) [
    | none ↦ thrown
    | some ((initiate_tag, tsn), b) ↦ elim (parameters (get_n_bytes_left b) b) [
      | returned rest ↦ returned (initiate_tag, init_ack t c drawn initiate_tag tsn)
      | thrown ↦ thrown
      | endless ↦ endless
    ]
  ]

  unfoldable pub on_init : Context → Work → BufferIn → Outcome Work
  unfolding chunk_init
  on_init c w chunk = elim (chunk_init w.sctp c (c.draw w.n_init) chunk) [
    | thrown ↦ thrown
    | endless ↦ endless
    | returned r ↦
        let counted : Work = record w { tag = r.0; n_init = w.n_init + 1 } in
        elim (find c.destination_port w.sctp.listeners) [
          | none ↦
              returned
                (record counted { reply = w.reply ++ chunk_gen_abort; terminate_session = true })
          | some l ↦ returned (record counted { reply = w.reply ++ r.1 })
        ]
  ]

  -- `chunk_cookie_echo`: whether the cookie is one of ours, and its three numbers.
  unfoldable pub chunk_cookie_echo : Sctp → Context → BufferIn → Option (Bool × ℕ × ℕ × ℕ)
  unfolding state_cookie
  chunk_cookie_echo t c chunk = do
    cookie_data ← get_segment chunk (get_n_bytes_left chunk)
    their_verification_tag ← get_net_long cookie_data.0
    their_initial_tsn ← get_net_long their_verification_tag.1
    my_initial_tsn ← get_net_long their_initial_tsn.1
    some (
      same_bytes (peek cookie_data.0)
          (state_cookie t c their_verification_tag.0 their_initial_tsn.0 my_initial_tsn.0),
      their_verification_tag.0,
      their_initial_tsn.0,
      my_initial_tsn.0,
    )

  unfoldable pub on_cookie_echo : Context → Work → BufferIn → Option Work
  unfolding chunk_cookie_echo open_session
  on_cookie_echo c w chunk = elim (chunk_cookie_echo w.sctp c chunk) [
    | none ↦ none
    | some (cookie_ok, their_verification_tag, their_tsn, my_tsn) ↦
        let tagged : Work = record w { tag = their_verification_tag } in
        let refused : Work = record tagged {
          reply = w.reply ++ chunk_gen_abort;
          terminate_session = true;
        } in
        elim (find c.destination_port w.sctp.listeners) [
          | none ↦ some refused
          | some l ↦ some (
              if cookie_ok
              then open_session c (record tagged { reply = w.reply ++ chunk_gen_cookie_ack })
                  (session_of c their_verification_tag their_tsn my_tsn)
              else refused)
        ]
  ]

  -- A chunk of a type other than ABORT.
  unfoldable pub on_chunk : Context → Work → ℕ → BufferIn → Outcome Work
  unfolding on_data on_init on_cookie_echo chunk_heartbeat_request
  on_chunk c w type chunk =
      if type == 0
      then outcome (on_data c w chunk)
      else (if type == 1
          then on_init c w chunk
          else (if type == 4
              then returned (record w { reply = w.reply ++ chunk_heartbeat_request chunk })
              else (if type == 10
                  then outcome (on_cookie_echo c w chunk)
                  else returned (record w { send_reply = false }))))
