-- ===== src/Tests/Handler.antt =====
-- The theorems on the tables of `class tcp` and on its threads, at tables of the test data.
use myip.Base.{ℕ, ◌≤◌, ◌<◌, ◌≡◌, refl, true, Option, none, some, [], ◌∷◌, length, arith}
use myip.Base.Assoc.{find, insert, place, erase, update}
use myip.Hash.{hash_address, get_hash, murmur_hash, murmur_words, murmur_tail}
use myip.Tcp.State.{rank, TcpSession, Tcp, established, syn_sent}
use myip.Tcp.Segment.{send_segment, send_counted}
use myip.Tcp.Header.{read_header, scan_options}
use myip.Tcp.Receive.{
  process, check_size, on_rst, on_syn, on_ack, on_fin, finish, on_flags, on_payload, on_fail,
  on_delete,
}
use myip.Tcp.Handler.{
  Handled, handled, packet_handler, admit, to_session, conclude, remove_session, fresh_session,
  session_id,
}
use myip.Tcp.Table.{packet_handler-max_sessions, packet_handler-others}
use myip.Tcp.Cleaner.{clean}
use myip.Tcp.Cleaning.{clean_lem, staying, going}
use myip.Tcp.Client.{allocate_client_session, free_port, client_session, add_handler, client_of}
use myip.Tcp.Handshake.{allocate_client_session-client_of}
use myip.Tests.Data.{server, address, session, machine, tcp, packet}

abbrev table : Tcp
table = tcp ((7, session established) ∷ [])

abbrev after : Handled → Tcp
after (handled t) = t
after Handled.overread = table
after Handled.endless = table

key : session_id (packet 80 2) (read_header (packet 80 2).bytes) ≡ 15002482202690143281
unfolding session_id hash_address get_hash murmur_hash murmur_words murmur_tail read_header
key = refl

opened :
    packet_handler machine table (packet 80 2)
    ≡ handled (after (packet_handler machine table (packet 80 2)))
unfolding packet_handler admit to_session conclude remove_session fresh_session session_id process
    check_size on_rst on_syn on_ack on_fin finish on_flags on_payload on_fail on_delete read_header
    scan_options insert place update erase hash_address get_hash murmur_hash murmur_words
    murmur_tail
opened = refl

packet_handler-max_sessions_example :
    length (after (packet_handler machine table (packet 80 2))).sessions ≤ 128
packet_handler-max_sessions_example =
    packet_handler-max_sessions machine table (packet 80 2)
      {t' = after (packet_handler machine table (packet 80 2))} (omega arith) opened

packet_handler-others_example :
    find 7 (after (packet_handler machine table (packet 80 2))).sessions
    ≡ some (session established)
packet_handler-others_example =
    packet_handler-others machine table (packet 80 2) 7
      {t' = after (packet_handler machine table (packet 80 2))} (λ e. omega (arith, key)) opened

clean_lem_example :
    (t' : Tcp) × (clean 9 4000000000 table ≡ some t')
    × (t'.sessions ≡ staying 4000000000 table.sessions)
    × (t'.ending_sessions ≡ going 4000000000 table.sessions)
    × (t'.stats.tcp_cur_n_sessions ≡ length t'.sessions)
clean_lem_example = clean_lem 9 4000000000 table (omega arith) (refl, tt)

abbrev setting_up : Tcp
setting_up = tcp ((7, record (session syn_sent) { in_init = true }) ∷ [])

abbrev opening : Option (Tcp × ℕ)
opening =
    allocate_client_session machine table (5 ∷ 40000 ∷ []) (address 1) 1500 server (address 2) 443

abbrev opened_table : Tcp
opened_table = elim opening [ none ↦ table | some (t, port) ↦ t ]

opening_runs :
    (find (hash_address (address 2) 40000 443) table.sessions ≡ none)
    × (opening ≡ some (opened_table, 40000))
unfolding allocate_client_session free_port client_session add_handler send_counted send_segment
    insert place hash_address get_hash murmur_hash murmur_words murmur_tail
opening_runs = (refl, refl)

allocate_client_session-client_of_example :
    (s : TcpSession) × (client_of opened_table 40000 ≡ some (hash_address (address 2) 40000 443, s))
    × (rank s.state ≡ rank syn_sent)
    × (s.in_init ≡ true)
    × (s.my_port ≡ 40000)
    × (find 40000 table.tcp_clients ≡ none)
    × (1023 < 40000)
    × (40000 < 65535)
allocate_client_session-client_of_example =
    allocate_client_session-client_of machine table (5 ∷ 40000 ∷ []) (address 1) 1500 server
      (address 2) 443 {t' = opened_table} {port = 40000} opening_runs.0 opening_runs.1
