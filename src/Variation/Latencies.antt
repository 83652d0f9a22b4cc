-- ===== src/Variation/Latencies.antt =====
-- The lists of latencies by the number of retransmissions.
use analyse_tcp.Prelude.{ℕ, ◌||◌, ◌&&◌, ◌==◌, if◌then◌else◌, List, [], ◌∷◌}
use analyse_tcp.Prelude.Int.{ℤ, pos, ◌-ℤ◌, ltb_ℤ}
use analyse_tcp.Time.{get_msecs, quot_ℤ}
use analyse_tcp.Range.{ByteRange}
use analyse_tcp.RangeMap.{RangeMap}
use analyse_tcp.Intervals.{to_u64}
use analyse_tcp.Packets.{to_int32}
use analyse_tcp.Packets.Gathered.{first_sent, latency_of}
use analyse_tcp.Variation.{LatencyItem}

module _ (first : ℤ) where
  -- The time of the first packet of a range, and its latency.
  abbrev pub item_of : ByteRange → LatencyItem
  item_of br = record {
    time_ms = to_int32 (to_u64 (get_msecs (first_sent br) -ℤ first));
    latency_ms = quot_ℤ (latency_of br) 1000;
  }

  -- The items of the ranges with a latency: all in list 0, and in list `i` those of the ranges that were sent
  -- again in `i` packets.
  abbrev pub items_at : ℕ → RangeMap → List LatencyItem
  items_at i [] = []
  items_at i ((k, br) ∷ m) =
      if ltb_ℤ (pos 0) (latency_of br) && (i == 0 || br.packet_retrans_count == i)
      then item_of br ∷ items_at i m
      else items_at i m
