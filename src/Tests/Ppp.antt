-- ===== src/Tests/Ppp.antt =====
-- Two ends of a PPP line.
use myip.Base.{◌≡◌, refl, true, false, some, [], ◌∷◌, ◌++◌, arith, replicate, drop}
use myip.Ppp.{must_escape, run_fcs}
use myip.Ppp.Fcs.{plain_fcs, run_fcs-plain}
use myip.Ppp.Control.{Ppp, control, queued, returned, after}
use myip.Ppp.Negotiate.{handle_lcp, lcp_request}
use myip.Ppp.Device.{receive, transmit_packet}
use myip.Ppp.Link.{transmit_packet-arrives}
use myip.Ppp.Options.{handle_lcp-lcp_request}
use myip.Tests.Data.{address}

-- An end that has compression, and one that has just started.
abbrev running : Ppp
running = record {
  protocol_compression = true;
  ac_field_compression = true;
  lcp_options_acked = true;
  ipcp_options_acked = true;
  ipv6cp_options_acked = true;
  magic = 0x1234abcd;
  accm_tx = 255 ∷ 255 ∷ 255 ∷ 255 ∷ replicate 28 0;
  accm_rx = 255 ∷ 255 ∷ 255 ∷ 255 ∷ replicate 28 0;
  opponent_address = address 2;
  stack = some (address 1);
}

abbrev started : Ppp
started = record running {
  protocol_compression = false;
  ac_field_compression = false;
  lcp_options_acked = false;
}

transmit_packet-arrives_example :
    receive 9 running [] (transmit_packet started (0x7e ∷ 0x7d ∷ 1 ∷ []) ++ 5 ∷ [])
    ≡ after
        (receive 9 running [] (5 ∷ []))
        (λ t. returned (t.0, queued (0x7e ∷ 0x7d ∷ 1 ∷ []) ∷ t.1, t.2))
unfolding must_escape
transmit_packet-arrives_example =
    transmit_packet-arrives 9 started running (address 1) (0x7e ∷ 0x7d ∷ 1 ∷ []) (5 ∷ [])
      (record { ac = λ h. refl; pc = λ h. refl }) refl refl (omega arith)

run_fcs-plain_example :
    run_fcs 0xffff (0xff ∷ 3 ∷ 0 ∷ 0x21 ∷ []) ≡ plain_fcs 0xffff (0xff ∷ 3 ∷ 0 ∷ 0x21 ∷ [])
run_fcs-plain_example =
    run_fcs-plain (0xff ∷ 3 ∷ 0 ∷ 0x21 ∷ []) 0xffff
      (omega arith, (omega arith, (omega arith, (omega arith, tt))))

handle_lcp-lcp_request_example :
    (b' : Ppp) × (handle_lcp 9 started
        (0xff ∷ 0x03 ∷ 0xc0 ∷ 0x21 ∷ (lcp_request running ++ 7 ∷ 8 ∷ []))
      ≡ returned (
        b',
        control 0xc021 (2 ∷ 1 ∷ 0 ∷ 20 ∷ drop 4 (lcp_request running)) b'.accm_tx
            ∷ control 0xc021 (lcp_request b') b'.accm_tx
            ∷ [],
      ))
    × (b'.protocol_compression ≡ true)
    × (b'.ac_field_compression ≡ true)
    × (b'.accm_tx ≡ 255 ∷ 255 ∷ 255 ∷ 255 ∷ 5 ∷ 6 ∷ replicate 26 0)
    × (b'.accm_rx ≡ 255 ∷ 255 ∷ 255 ∷ 255 ∷ 5 ∷ 6 ∷ replicate 26 0)
handle_lcp-lcp_request_example = handle_lcp-lcp_request 4 running started 7 8
