-- ===== src/Intervals/Tests.antt =====
-- Runs of the quantities by interval.
use analyse_tcp.Prelude.{ℕ, ◌≡◌, refl, ◌+◌, true, false, List, [], ◌∷◌, ok}
use analyse_tcp.Prelude.Int.{pos, ◌-ℤ◌, ◌+ℤ◌, ◌*ℤ◌}
use analyse_tcp.Time.{Timeval, timeval_eq, get_msecs}
use analyse_tcp.Range.{ByteRange, SentType}
use analyse_tcp.Range.Split.{fresh_range}
use analyse_tcp.RangeMap.{RangeMap}
use analyse_tcp.Intervals.{interval_idx, loss_interval}
use analyse_tcp.Intervals.Buckets.{get_or, grow_at}
use analyse_tcp.Intervals.Loss.{
  no_loss, losses_loop, set_totals, totals_loop, lose, lose_new, lose_packets, total_packets,
  total_new, calculate_loss_grouped_by_interval,
}
use analyse_tcp.Intervals.Sizes.{empty_group, Capture, aggregate_sizes}
use analyse_tcp.Intervals.Throughput.{
  Counts, sum_all, wire_bytes, payload_of, again, one, vectors, aggregate_sizes_lem,
}

abbrev at_sec : ℕ → Timeval
at_sec s = record { sec = pos s; usec = pos 500000 }

-- Ten bytes that were sent at 0.5 seconds and again at 2.5; the first packet was lost.
abbrev lost_range : ByteRange
lost_range = record (fresh_range 0 10) {
  original_payload_size = 10;
  packet_sent_count = 1;
  sent_tstamp_pcap = (at_sec 0, SentType.st_pkt) ∷ (at_sec 2, SentType.st_rtr) ∷ [];
  lost_tstamps_tcp = (7, at_sec 0) ∷ [];
}

abbrev one_loss : RangeMap
one_loss = (0, lost_range) ∷ []

-- The packet that was sent at 2.5 seconds is in no interval.
one_interval :
    calculate_loss_grouped_by_interval true 1000 (pos 0) one_loss [] []
    ≡ ok (
      record (loss_interval 1 10 10) { tot_cnt_bytes = 1; tot_all_bytes = 10; tot_new_bytes = 10 }
          ∷ no_loss
          ∷ [],
      record (loss_interval 1 10 10) { tot_cnt_bytes = 1; tot_all_bytes = 10; tot_new_bytes = 10 }
          ∷ [],
    )
unfolding calculate_loss_grouped_by_interval losses_loop set_totals totals_loop grow_at lose
    lose_new lose_packets total_packets total_new interval_idx timeval_eq get_msecs ◌-ℤ◌ ◌+ℤ◌ ◌*ℤ◌
one_interval = refl

abbrev captured : ℕ → ℕ → Capture
captured s size = record {
  ts = at_sec s;
  wire_length = size + 66;
  payload = size;
  is_retrans = false;
}

abbrev two_connections : List (List Capture)
two_connections = (captured 0 10 ∷ captured 1 20 ∷ []) ∷ (captured 1 5 ∷ []) ∷ []

aggregate_sizes_lem_example :
    Counts
      (get_or (aggregate_sizes [] (vectors 1000 (at_sec 0) two_connections)) 1 empty_group)
      (sum_all 1000 (at_sec 0) wire_bytes 1 two_connections)
      (sum_all 1000 (at_sec 0) payload_of 1 two_connections)
      (sum_all 1000 (at_sec 0) again 1 two_connections)
      (sum_all 1000 (at_sec 0) one 1 two_connections)
aggregate_sizes_lem_example = aggregate_sizes_lem 1000 (at_sec 0) 1 two_connections
