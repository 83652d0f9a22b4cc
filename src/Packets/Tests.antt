-- ===== src/Packets/Tests.antt =====
-- Runs of the statistics of the packets.
use analyse_tcp.Prelude.{ℕ, ◌+◌, ◌/◌, ◌<◌, min, max, ◌≡◌, refl, true, false, [], ◌∷◌, ok, arith}
use analyse_tcp.Prelude.Int.{pos, ◌-ℤ◌, ◌+ℤ◌, ◌*ℤ◌}
use analyse_tcp.Time.{timersub, get_usecs}
use analyse_tcp.Range.{ByteRange, SentType}
use analyse_tcp.Range.Split.{fresh_range}
use analyse_tcp.Packets.{PacketsStats, new_packets_stats, get_send_ack_time_diff}
use analyse_tcp.Stats.{BaseStats, new_stats}
use analyse_tcp.Stats.Tally.{sum, least, greatest}
use analyse_tcp.Packets.Aggregate.{AggrPacketsStats, new_aggr_packets_stats}
use analyse_tcp.Packets.Quantities.{Finished}
use analyse_tcp.Packets.Summary.{add_all_stats, IsSummary, add_all_stats-IsSummary}

-- Ten bytes, sent at one second and again at three, and acked at four.
abbrev acked_range : ByteRange
acked_range = record (fresh_range 0 10) {
  packet_retrans_count = 1;
  sent_tstamp_pcap =
      (record { sec = pos 1; usec = pos 0 }, SentType.st_pkt)
      ∷ (record { sec = pos 3; usec = pos 0 }, SentType.st_rtr)
      ∷ [];
  ack_time = record { sec = pos 4; usec = pos 0 };
  acked = true;
}

three_seconds : get_send_ack_time_diff acked_range ≡ ok (pos 3000000)
unfolding get_send_ack_time_diff timersub get_usecs ◌-ℤ◌ ◌+ℤ◌ ◌*ℤ◌
three_seconds = refl

-- A connection with two latencies, two sizes and one time between its packets.
abbrev values_of : ℕ → ℕ → BaseStats
values_of x y = record (new_stats false) {
  counter = 2;
  min_value = min x y;
  max_value = max x y;
  cum = x + y;
  values = x ∷ y ∷ [];
}

abbrev finished : PacketsStats
finished = record (new_packets_stats false) {
  latency = values_of 5 3;
  packet_length = values_of 10 20;
  itt = values_of 1 2;
  retrans = 1 ∷ [];
}

values_of-Finished : (x y : ℕ) → x < 1000 → y < 1000 → Finished (values_of x y)
unfolding sum least greatest
values_of-Finished x y h g = record {
  held = record {
    listed = refl;
    counted = omega arith;
    summed = omega arith;
    lower = omega arith;
    upper = omega arith;
    usable = refl;
  };
  few = omega arith;
  small = omega arith;
}

add_all_stats-IsSummary_example :
    (aggr : AggrPacketsStats) × (add_all_stats
        (λ a b. a / b)
        (finished ∷ finished ∷ [])
        new_aggr_packets_stats
      ≡ ok aggr)
    × IsSummary (finished ∷ finished ∷ []) aggr
add_all_stats-IsSummary_example =
    add_all_stats-IsSummary (λ a b. a / b) (finished ∷ finished ∷ []) (λ a b h g w. refl)
      (both, (both, tt))
  where
    both : Finished finished.latency × Finished finished.packet_length × Finished finished.itt
    both = (
      values_of-Finished 5 3 (omega arith) (omega arith),
      values_of-Finished 10 20 (omega arith) (omega arith),
      values_of-Finished 1 2 (omega arith) (omega arith),
    )
