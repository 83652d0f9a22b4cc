-- ===== src/Variation/Tests.antt =====
-- Runs of the latency and its variation.
use analyse_tcp.Prelude.{ℕ, ◌+◌, ◌%◌, ◌≡◌, true, [], ◌∷◌}
use analyse_tcp.Prelude.Int.{pos}
use analyse_tcp.Words.{u64_mod}
use analyse_tcp.Range.{ByteRange, SentType}
use analyse_tcp.Range.Split.{fresh_range}
use analyse_tcp.RangeMap.{RangeMap}
use analyse_tcp.Variation.{Histograms, make_byte_latency_variation_cdf}
use analyse_tcp.Variation.Histogram.{IsCounted, make_byte_latency_variation_cdf-IsCounted}

-- Ten bytes with a difference of 7 ms and five with one of 3 ms, which is the lowest.
abbrev delayed : ℕ → ℕ → ℕ → ByteRange
delayed start end ms = record (fresh_range start end) { diff = pos ms }

abbrev two_delays : RangeMap
two_delays = (0, delayed 0 10 7) ∷ (10, delayed 10 15 3) ∷ []

abbrev one_bucket : Histograms
one_bucket = record { own = []; global = (pos 4, 100) ∷ []; tot_num_bytes = 100 }

make_byte_latency_variation_cdf-IsCounted_example :
    IsCounted true
      (pos 3)
      two_delays
      one_bucket
      (make_byte_latency_variation_cdf true (pos 3) 15 two_delays one_bucket)
    × ((make_byte_latency_variation_cdf true (pos 3) 15 two_delays one_bucket).tot_num_bytes
        ≡ (100 + 15) % u64_mod)
make_byte_latency_variation_cdf-IsCounted_example =
    make_byte_latency_variation_cdf-IsCounted true (pos 3) 15 two_delays one_bucket tt (tt, tt)

-- Ten bytes, sent at one second and again at three, and acked at four.
abbrev acked_late : RangeMap
acked_late =
    (
      0,
      record (fresh_range 0 10) {
        packet_retrans_count = 1;
        sent_tstamp_pcap =
            (record { sec = pos 1; usec = pos 0 }, SentType.st_pkt)
            ∷ (record { sec = pos 3; usec = pos 0 }, SentType.st_rtr)
            ∷ [];
        ack_time = record { sec = pos 4; usec = pos 0 };
        acked = true;
      },
    )
    ∷ []
