-- ===== src/Stats/Totals.antt =====
-- `Connection::addConnStats` of Connection.cc, less the message on redundant bytes, with `getDuration`: the
-- counters of a connection, added to those of all connections. An `int` is the 32-bit word that holds it.
use analyse_tcp.Prelude.{ℕ, ◌/◌, ◌%◌, Result, ok, ◌>>=◌}
use analyse_tcp.Prelude.Int.{pos_part, ◌-ℤ◌}
use analyse_tcp.Words.{add32, add64, u32_mod}
use analyse_tcp.Time.{timersub, get_msecs}
use analyse_tcp.RangeMap.{RangeMap}
use analyse_tcp.Intervals.{to_u64}
use analyse_tcp.Stats.Loss.{Analysis, get_num_unique_bytes}
use analyse_tcp.Stats.Interval.{Interval, sent_time}

-- `ConnStats`
pub record ConnStats : Type 0 where
  pub duration : ℕ
  pub analysed_duration_sec : ℕ
  pub analysed_start_sec : ℕ
  pub analysed_end_sec : ℕ
  pub tot_bytes_sent : ℕ
  pub tot_unique_bytes : ℕ
  pub tot_unique_bytes_sent : ℕ
  pub redundant_bytes : ℕ
  pub bytes_lost : ℕ
  pub tot_retrans_bytes_sent : ℕ
  pub tot_packet_size : ℕ
  pub nr_data_packets_sent : ℕ
  pub nr_packets_sent : ℕ
  pub nr_packets_sent_found_in_dump : ℕ
  pub nr_packets_received_found_in_dump : ℕ
  pub nr_retrans : ℕ
  pub nr_retrans_no_payload : ℕ
  pub bundle_count : ℕ
  pub ack_count : ℕ
  pub syn_count : ℕ
  pub fin_count : ℕ
  pub rst_count : ℕ
  pub pure_acks_count : ℕ
  pub rdb_packet_hits : ℕ
  pub rdb_packet_misses : ℕ
  pub rdb_bytes_sent : ℕ
  pub rdb_byte_misses : ℕ
  pub rdb_byte_hits : ℕ
  pub ranges_sent : ℕ
  pub ranges_lost : ℕ

-- What addConnStats takes from a connection: its duration and its unique bytes, its `totPacketSize`, and what
-- the analysis of its ranges has left.
pub record Contribution : Type 0 where
  pub seconds : ℕ
  pub unique_bytes : ℕ
  pub packet_sizes : ℕ
  pub interval : Interval
  pub analysis : Analysis

-- The statements of `addConnStats`.
unfoldable pub add_contribution : Contribution → ConnStats → ConnStats
add_contribution c cs =
    let a = c.analysis in
    record {
      duration = add32 cs.duration c.seconds;
      analysed_duration_sec =
          add32 cs.analysed_duration_sec
            (to_u64 (c.interval.time_sec_end -ℤ c.interval.time_sec_start));
      analysed_start_sec = add32 cs.analysed_start_sec (to_u64 c.interval.time_sec_start);
      analysed_end_sec = add32 cs.analysed_end_sec (to_u64 c.interval.time_sec_end);
      tot_bytes_sent = add64 cs.tot_bytes_sent a.bytes_sent;
      tot_unique_bytes = add64 cs.tot_unique_bytes c.unique_bytes;
      tot_unique_bytes_sent = add64 cs.tot_unique_bytes_sent a.bytes_sent_unique;
      redundant_bytes = add64 cs.redundant_bytes a.redundant_bytes;
      bytes_lost = add64 cs.bytes_lost a.lost_bytes;
      tot_retrans_bytes_sent = add32 cs.tot_retrans_bytes_sent a.bytes_retransmitted;
      tot_packet_size = add32 cs.tot_packet_size c.packet_sizes;
      nr_data_packets_sent = add32 cs.nr_data_packets_sent a.data_packet_count;
      nr_packets_sent = add32 cs.nr_packets_sent a.packet_sent_count;
      nr_packets_sent_found_in_dump =
          add32 cs.nr_packets_sent_found_in_dump a.packet_sent_count_in_dump;
      nr_packets_received_found_in_dump =
          add32 cs.nr_packets_received_found_in_dump a.packet_received_count;
      nr_retrans = add32 cs.nr_retrans a.retr_packet_count;
      nr_retrans_no_payload = add32 cs.nr_retrans_no_payload a.retr_no_payload_packet_count;
      bundle_count = add32 cs.bundle_count a.rdb_packet_count;
      ack_count = add32 cs.ack_count a.ack_count;
      syn_count = add32 cs.syn_count a.syn_count;
      fin_count = add32 cs.fin_count a.fin_count;
      rst_count = add32 cs.rst_count a.rst_count;
      pure_acks_count = add32 cs.pure_acks_count a.pure_acks_count;
      rdb_packet_hits = add32 cs.rdb_packet_hits a.rdb_packet_hits;
      rdb_packet_misses = add32 cs.rdb_packet_misses a.rdb_packet_misses;
      rdb_bytes_sent = add64 cs.rdb_bytes_sent (add64 a.rdb_byte_miss a.rdb_byte_hits);
      rdb_byte_misses = add64 cs.rdb_byte_misses a.rdb_byte_miss;
      rdb_byte_hits = add64 cs.rdb_byte_hits a.rdb_byte_hits;
      ranges_sent = add64 cs.ranges_sent a.sent_ranges_count;
      ranges_lost = add64 cs.ranges_lost a.lost_ranges_count;
    }

-- `getDuration(true)`: the whole seconds from the first analysed range to the last one. The ranges are sent in
-- this order; a negative number of seconds, which no `uint32_t` holds, is cut to 0.
unfoldable pub get_duration : RangeMap → Interval → Result ℕ
get_duration m v = do
  first ← sent_time m v.range_start
  last ← sent_time m v.range_last
  ok ((pos_part (get_msecs (timersub last first)) / 1000) % u32_mod)

-- `addConnStats`, on the ranges of a connection and those of them that are analysed.
unfoldable pub add_conn_stats :
    RangeMap → RangeMap → ℕ → Interval → Analysis → ConnStats → Result ConnStats
add_conn_stats m analysed packet_sizes v a cs = do
  seconds ← get_duration m v
  unique ← get_num_unique_bytes analysed
  ok (
      add_contribution
        (record {
          seconds = seconds;
          unique_bytes = unique;
          packet_sizes = packet_sizes;
          interval = v;
          analysis = a;
        })
        cs)
