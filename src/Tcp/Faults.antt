-- ===== src/Tcp/Faults.antt =====
-- Places where tcp.cpp does other than the protocol or its own comments ask, stated for all inputs
-- that show them.
use myip.Base.{◌+◌, ◌^◌, ◌<◌, ◌≡◌, ◌≢◌, true, false, none, some, [], ◌∷◌, ◌++◌, arith, u32}
use myip.Base.Assoc.{find}
use myip.Tcp.State.{TcpState, listen, syn_rcvd, established, rank, sent, Segment, PortHandler}
use myip.Tcp.Segment.{to_peer}
use myip.Tcp.Receive.{Context, Work, on_rst, on_syn, on_ack, ack_syn_rcvd, on_fin, finish, on_flags}

-- What holds of the work on the session between the steps of the next theorem.
record IsAt (t : TcpState) (w : Work) : Type 0 where
  at : rank w.session.state ≡ rank t
  sound : w.fail ≡ false
  kept : w.delete_entry ≡ false
  unfinished : w.session.flag_fin_when_all_received ≡ false

module _ (c : Context) (w : Work) where
  rst-IsAt : {t : TcpState} → c.header.flag_rst ≡ false → IsAt t w → IsAt t (on_rst c w)
  unfolding on_rst
  rst-IsAt unset v = ground (arith, v.at, v.sound, v.kept, v.unfinished)

  syn-IsAt : c.header.flag_syn ≡ true → IsAt listen w → IsAt syn_rcvd (on_syn c w)
  unfolding on_syn
  syn-IsAt set v = ground (arith, v.at, v.sound, v.kept, v.unfinished)

  ack-IsAt :
      {h : PortHandler}
      → c.header.flag_ack ≡ true
      → find c.header.dst_port c.listeners ≡ some h
      → h.on_new_session ≡ none
      → IsAt syn_rcvd w
      → IsAt established (on_ack c w)
  unfolding on_ack ack_syn_rcvd
  ack-IsAt set there none_asked v =
      ground (arith, v.at, v.sound, v.kept, v.unfinished, there, none_asked)

  fin-IsAt : {t : TcpState} → c.header.flag_fin ≡ false → IsAt t w → IsAt t (on_fin c w)
  unfolding on_fin
  fin-IsAt unset v = ground (arith, v.at, v.sound, v.kept, v.unfinished)

  finish-IsAt : {t : TcpState} → IsAt t w → IsAt t (finish c w)
  unfolding finish
  finish-IsAt v = ground (arith, v.at, v.sound, v.kept, v.unfinished)

-- The flags of one packet with SYN and ACK take a listening session to `established`, whatever
-- number it acknowledges, if it has neither RST nor FIN and an application listens that does not ask
-- to be told of new sessions.
syn_ack_establishes :
    (c : Context) (w : Work) {h : PortHandler}
    → rank w.session.state ≡ rank listen
    → w.fail ≡ false
    → w.delete_entry ≡ false
    → w.session.flag_fin_when_all_received ≡ false
    → c.header.flag_syn ≡ true
    → c.header.flag_ack ≡ true
    → c.header.flag_rst ≡ false
    → c.header.flag_fin ≡ false
    → find c.header.dst_port c.listeners ≡ some h
    → h.on_new_session ≡ none
    → (rank ((on_flags c w).session.state) ≡ rank established)
      × ((on_flags c w).delete_entry ≡ false)
unfolding on_flags
syn_ack_establishes c w at sound kept unfinished syn ack no_rst no_fin there none_asked =
    let v0 : IsAt listen w = record {
      at = at;
      sound = sound;
      kept = kept;
      unfinished = unfinished;
    } in
    let w1 = on_rst c w in
    let v1 = rst-IsAt c w no_rst v0 in
    let w2 = on_syn c w1 in
    let v2 = syn-IsAt c w1 syn v1 in
    let w3 = on_ack c w2 in
    let v3 = ack-IsAt c w2 ack there none_asked v2 in
    let w4 = on_fin c w3 in
    let v5 = finish-IsAt c w4 (fin-IsAt c w3 no_fin v3) in ground (arith, sound, v5.at, v5.kept)

-- A SYN that comes again, when the answer to the first one has moved the session's number on by 1,
-- is answered with another number than the first one was.
syn_again_renumbers :
    (c : Context) (w : Work)
    → c.has_idev ≡ true
    → c.header.flag_syn ≡ true
    → w.delete_entry ≡ false
    → rank w.session.state ≡ rank syn_rcvd
    → w.session.my_seq_nr ≡ u32 (w.session.initial_my_seq_nr + 1)
    → w.session.initial_my_seq_nr < 2 ^ 32
    → (g : Segment) × ((on_syn c w).events ≡ w.events ++ sent g ∷ [])
      × (g.seq ≢ some w.session.initial_my_seq_nr)
unfolding on_syn
syn_again_renumbers c w dev syn no_delete again moved fits = (
  to_peer c.machine w.session 18 w.session.their_seq_nr (some w.session.my_seq_nr) [] c.ts_ecr,
  ground (arith, dev, syn, no_delete, again),
  ground (arith, moved, fits),
)
