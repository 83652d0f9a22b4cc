-- ===== src/Dump/Tests.antt =====
-- Runs of the handling of packets.
use analyse_tcp.Prelude.{◌≡◌, [], ◌∷◌, ◌++◌, replicate, err, ◌>>=◌, Fault, arith}
use analyse_tcp.Range.{DataSeg, has_flag, new_byte_range}
use analyse_tcp.Time.{zero_time}
use analyse_tcp.Prelude.{ℕ, refl, sym, ◌∙◌, true, false, none, ok, Result, List}
use analyse_tcp.Conn.{
  RelativeSeqType, new_connection, relative_sequence_number, register_sent, check_expected,
  register_range,
}
use analyse_tcp.Seq.{get_relative_sequence_number, after_or_equal, relative_of_wrap_index}
use analyse_tcp.Manager.{insert_sent_range, insert_segment, advance_last_seq}
use analyse_tcp.Insert.{insert_byte_range}
use analyse_tcp.Insert.Steps.{insert_step, insert_empty, ack_start}
use analyse_tcp.Insert.Marks.{new_empty_range}
use analyse_tcp.RangeMap.{find}
use analyse_tcp.Dump.Options.{parse_tcp_options, options_loop, options_round, add_sack, read32}
use analyse_tcp.Dump.OptionList.{nop, timestamps, one_sack, word_bytes, encode_all}
use analyse_tcp.Dump.OptionMeaning.{IsNear, meaning_all, parse_tcp_options-meaning_all}
use analyse_tcp.Dump.Table.{key_before, lookup, get_conn, store}
use analyse_tcp.Dump.Handlers.{Dump, Packet, sent_key, process_sent, sent_connection}
use analyse_tcp.Dump.Events.{Event, sent, run, run_alone}
use analyse_tcp.Dump.Isolation.{run-alone}
use analyse_tcp.Dump.KeyOrder.{key_before-StrictOrder}
use analyse_tcp.Dump.OptionFaults.{options_loop_stuck, three_sacks_mixed}

abbrev blank_segment : DataSeg
blank_segment = record {
  seq = 0;
  end_seq = 0;
  rdb_end_seq = 0;
  seq_absolute = 0;
  ack = 0;
  window = 0;
  payload_size = 0;
  retrans = false;
  is_rdb = false;
  sacks = false;
  in_sequence = false;
  tstamp_pcap = zero_time;
  tstamp_tcp = 0;
  tstamp_tcp_echo = 0;
  tcp_sacks = [];
  flags = 0;
}

edge_at :
    relative_sequence_number 1200 RelativeSeqType.relseq_send_ack (new_connection 1000) ≡ ok 200
unfolding relative_sequence_number get_relative_sequence_number after_or_equal
    relative_of_wrap_index
edge_at = refl

edge-IsNear : IsNear (new_connection 1000) 1200
edge-IsNear r e = let same : ok 200 ≡ ok r = sym edge_at ∙ e in let at : 200 ≡ r = cc in omega arith

parse_tcp_options-meaning_all_example :
    parse_tcp_options
      (encode_all (nop ∷ timestamps 70 60 ∷ one_sack 1100 1200 ∷ []) (replicate 1 0 ++ []))
      22
      (new_connection 1000)
      RelativeSeqType.relseq_send_ack
      blank_segment
    ≡ meaning_all
        (new_connection 1000)
        RelativeSeqType.relseq_send_ack
        (nop ∷ timestamps 70 60 ∷ one_sack 1100 1200 ∷ [])
        blank_segment
parse_tcp_options-meaning_all_example =
    parse_tcp_options-meaning_all nop (timestamps 70 60 ∷ one_sack 1100 1200 ∷ []) 1 []
      (new_connection 1000) RelativeSeqType.relseq_send_ack blank_segment
      (tt, ((omega arith, omega arith), ((omega arith, omega arith), tt)))
      (tt, (tt, (edge-IsNear, tt))) (omega arith)

options_loop_stuck_example :
    options_loop 41
      (30 ∷ 0 ∷ 0 ∷ [])
      4
      (new_connection 1000)
      RelativeSeqType.relseq_none
      0
      blank_segment
    ≡ err Fault.out_of_fuel
options_loop_stuck_example =
    options_loop_stuck 41 30 4 (0 ∷ []) (new_connection 1000) RelativeSeqType.relseq_none
      blank_segment (omega arith) (omega arith, omega arith, omega arith, omega arith)

three_sacks_mixed_example :
    parse_tcp_options
      (5
        ∷ 26
        ∷ word_bytes 1100 (
            word_bytes 1200
              (word_bytes 1300 (word_bytes 1400 (word_bytes 1500 (word_bytes 1600 []))))))
      26
      (new_connection 1000)
      RelativeSeqType.relseq_send_ack
      blank_segment
    ≡ (do
      one ← add_sack (new_connection 1000) 1100 1200 (record blank_segment { sacks = true })
      two ← add_sack (new_connection 1000) 1400 1500 one
      left ← read32 [] 0
      right ← read32 [] 4
      add_sack (new_connection 1000) left right two)
three_sacks_mixed_example =
    three_sacks_mixed 1100 1200 1300 1400 1500 1600 [] (new_connection 1000) blank_segment
      (omega arith, omega arith, omega arith, omega arith)

-- The SYN of a connection, and a packet of another one.
abbrev syn_packet : ℕ → Packet
syn_packet port = record {
  len = 54;
  ts = zero_time;
  ip_src = 1;
  ip_dst = 2;
  ip_len = 40;
  ip_hl = 5;
  th_sport = port;
  th_dport = 80;
  th_seq = 1000;
  th_ack = 0;
  th_off = 5;
  th_flags = 2;
  th_win = 500;
  behind = 0 ∷ [];
}

abbrev new_dump : Dump
new_dump = record {
  first_sent_time = zero_time;
  sent_packet_count = 0;
  recv_packet_count = 0;
  sent_bytes_count = 0;
  recv_bytes_count = 0;
  ack_count = 0;
  max_payload_size = 0;
  conns = [];
}

abbrev result_or : Dump → Result Dump → Dump
result_or d (ok d') = d'
result_or d (err f) = d

abbrev two_syns : List Event
two_syns = sent 14 (syn_packet 5001) ∷ sent 14 (syn_packet 5002) ∷ []

two_syns-run : run two_syns new_dump ≡ ok (result_or new_dump (run two_syns new_dump))
unfolding run process_sent get_conn lookup sent_connection relative_sequence_number
    get_relative_sequence_number after_or_equal relative_of_wrap_index parse_tcp_options
    options_loop options_round register_sent check_expected register_range insert_sent_range
    insert_segment insert_byte_range insert_step insert_empty advance_last_seq store find
    new_empty_range new_byte_range ack_start has_flag key_before
two_syns-run = refl

run-alone_example :
    run_alone (sent_key (syn_packet 5001)) two_syns none
    ≡ ok (lookup (sent_key (syn_packet 5001)) ((result_or new_dump (run two_syns new_dump)).conns))
unfolding lookup
run-alone_example =
    run-alone (sent_key (syn_packet 5001)) two_syns new_dump
      (result_or new_dump (run two_syns new_dump)) two_syns-run

key_before-StrictOrder_example :
    (key_before (sent_key (syn_packet 1)) (sent_key (syn_packet 1)) ≡ false)
    × (key_before (sent_key (syn_packet 1)) (sent_key (syn_packet 2)) ≡ true
        → key_before (sent_key (syn_packet 2)) (sent_key (syn_packet 3)) ≡ true
        → key_before (sent_key (syn_packet 1)) (sent_key (syn_packet 3)) ≡ true)
    × (key_before (sent_key (syn_packet 1)) (sent_key (syn_packet 2)) ≡ false
        → key_before (sent_key (syn_packet 2)) (sent_key (syn_packet 1)) ≡ false
        → sent_key (syn_packet 1) ≡ sent_key (syn_packet 2))
key_before-StrictOrder_example =
    key_before-StrictOrder (sent_key (syn_packet 1)) (sent_key (syn_packet 2))
      (sent_key (syn_packet 3))
