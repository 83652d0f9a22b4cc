-- ===== src/Dump/TraceTests.antt =====
-- Runs of processSent on a trace whose sequence numbers wrap around.
use analyse_tcp.Prelude.{ℕ, ◌+◌, ◌≤◌, ◌<◌, ◌≡◌, ◌≢◌, refl, ◌∙◌, List, [], ◌∷◌, arith, inl}
use analyse_tcp.Time.{zero_time}
use analyse_tcp.Seq.{absolute_seq}
use analyse_tcp.Range.{has_flag}
use analyse_tcp.Conn.{new_connection}
use analyse_tcp.Dump.OptionList.{TcpOption}
use analyse_tcp.Dump.Table.{ConnectionMapKey, lookup, key_before}
use analyse_tcp.Dump.Handlers.{Dump, Packet, sent_key}
use analyse_tcp.Dump.Sending.{Carries}
use analyse_tcp.Dump.Traces.{
  AllCarry, FollowsUpTo, process_all_sent, process_all_sent-Follows, process_all_sent_new,
  new_connection-Follows,
}

-- A packet with time stamps, whose header is 66 bytes long with that of the link layer.
abbrev data_packet : ℕ → ℕ → Packet
data_packet seq size = record {
  len = 66 + size;
  ts = zero_time;
  ip_src = 1;
  ip_dst = 2;
  ip_len = 52 + size;
  ip_hl = 5;
  th_sport = 5000;
  th_dport = 80;
  th_seq = seq;
  th_ack = 0;
  th_off = 8;
  th_flags = 16;
  th_win = 500;
  behind = 1 ∷ 1 ∷ 8 ∷ 10 ∷ 0 ∷ 0 ∷ 0 ∷ 7 ∷ 0 ∷ 0 ∷ 0 ∷ 9 ∷ 65 ∷ [];
}

-- Six bytes in front of the wrap-around, the four behind it with twenty more, and the first ones again.
abbrev three_packets : List (ℕ × Packet)
three_packets =
    (0, data_packet 4294967290 10) ∷ (10, data_packet 4 20) ∷ (0, data_packet 4294967290 10) ∷ []

abbrev no_packets : Dump
no_packets = record {
  first_sent_time = zero_time;
  sent_packet_count = 0;
  recv_packet_count = 0;
  sent_bytes_count = 0;
  recv_bytes_count = 0;
  ack_count = 0;
  max_payload_size = 0;
  conns = [];
}

abbrev trace_key : ConnectionMapKey
trace_key = sent_key (data_packet 0 0)

data_packet-Carries :
    (last position seq size : ℕ)
    → seq ≡ absolute_seq 4294967290 position
    → position ≤ last
    → last ≤ 100
    → seq ≢ 4294967295
    → 0 < size
    → size ≤ 1000
    → Carries 0 14 4294967290 last position (data_packet seq size)
unfolding has_flag
data_packet-Carries last position seq size wrapped no_gap small ne some_data short = record {
  wrapped = wrapped;
  from_start = omega arith;
  no_gap = no_gap;
  recent = omega arith;
  side = inl (omega arith);
  not_last_word = λ e. ne (wrapped ∙ e);
  has_data = omega arith;
  short = omega arith;
  small = omega arith;
  no_syn = refl;
  option = TcpOption.nop;
  options = TcpOption.nop ∷ TcpOption.timestamps 7 9 ∷ [];
  pad = 0;
  rest = 65 ∷ [];
  laid_out = refl;
  sizes = refl;
  at_most_40 = omega arith;
  are_options = (tt, (tt, ((omega arith, omega arith), tt)));
}

first-Carries : (last : ℕ) → last ≤ 100 → Carries 0 14 4294967290 last 0 (data_packet 4294967290 10)
unfolding absolute_seq
first-Carries last le =
    data_packet-Carries last 0 4294967290 10 refl (omega arith) le (omega arith) (omega arith)
      (omega arith)

next-Carries : Carries 0 14 4294967290 10 10 (data_packet 4 20)
unfolding absolute_seq
next-Carries =
    data_packet-Carries 10 10 4 20 refl (omega arith) (omega arith) (omega arith) (omega arith)
      (omega arith)

three_packets-AllCarry : AllCarry trace_key 0 14 4294967290 0 three_packets
three_packets-AllCarry = (
  refl,
  first-Carries 0 (omega arith),
  (refl, next-Carries, (refl, first-Carries 30 (omega arith), tt)),
)

process_all_sent_new_example :
    FollowsUpTo trace_key 0 4294967290 30 (process_all_sent 14 three_packets no_packets)
unfolding lookup
process_all_sent_new_example =
    process_all_sent_new 14 (data_packet 4294967290 10)
      ((10, data_packet 4 20) ∷ (0, data_packet 4294967290 10) ∷ []) no_packets (omega arith) refl
      three_packets-AllCarry

-- The connection is in the table.
abbrev new_conns : Dump
new_conns = record no_packets { conns = (trace_key, new_connection 4294967290) ∷ [] }

process_all_sent-Follows_example :
    FollowsUpTo trace_key 0 4294967290 30 (process_all_sent 14 three_packets new_conns)
unfolding lookup key_before
process_all_sent-Follows_example =
    process_all_sent-Follows trace_key 0 14 4294967290 0 three_packets new_conns
      (new_connection-Follows trace_key 4294967290 new_conns (omega arith) refl)
      three_packets-AllCarry
