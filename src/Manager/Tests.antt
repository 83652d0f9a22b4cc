-- ===== src/Manager/Tests.antt =====
-- Runs of the range manager.
use analyse_tcp.Prelude.{
  ◌≡◌, some, err, Fault, ℕ, ◌+◌, ◌≤◌, ◌<◌, refl, false, inr, List, [], ◌∷◌, arith,
}
use analyse_tcp.Time.{timer_lt, zero_time}
use analyse_tcp.Range.{ByteRange, DataSeg, SentType, increase_sent, has_flag}
use analyse_tcp.Range.Split.{fresh_range, fresh_range-IsRange}
use analyse_tcp.RangeMap.Order.{Disjoint}
use analyse_tcp.RangeMap.Cover.{covers}
use analyse_tcp.RangeMap.Pieces.{top}
use analyse_tcp.Prelude.{ok, true}
use analyse_tcp.Manager.{RangeManager, insert_sent_range, new_range_manager}
use analyse_tcp.Manager.Ack.{keys_from, process_ack}
use analyse_tcp.Manager.AckSplit.{AllAcked, Parted, process_ack-Parted}
use analyse_tcp.RangeMap.Pieces.{Refines}
use analyse_tcp.RangeMap.{find}
use analyse_tcp.Insert.Returns.{Returns}
use analyse_tcp.Manager.Known.{AllSent, StartsWell}
use analyse_tcp.Manager.AckReturns.{process_ack-Returns}
use analyse_tcp.Manager.AckFault.{process_ack_leaves}
use analyse_tcp.Manager.Stream.{
  Holds, IsSegment, HoldsUpTo, insert_all, Follows, insert_sent_range-Holds, insert_all-Holds,
}

-- A segment of `size` bytes from `seq` on, which acknowledges `ack`.
abbrev segment_at : ℕ → ℕ → ℕ → DataSeg
segment_at seq size ack = record {
  seq = seq;
  end_seq = seq + size;
  rdb_end_seq = 0;
  seq_absolute = 1000 + seq;
  ack = ack;
  window = 500;
  payload_size = size;
  retrans = false;
  is_rdb = false;
  sacks = false;
  in_sequence = false;
  tstamp_pcap = zero_time;
  tstamp_tcp = 1;
  tstamp_tcp_echo = 1;
  tcp_sacks = [];
  flags = 0x10;
}

segment_at-IsSegment :
    (seq size ack : ℕ)
    → 0 < size
    → size ≤ 1501
    → seq < 1000000
    → IsSegment (segment_at seq size ack)
unfolding has_flag
segment_at-IsSegment seq size ack a b c = record {
  has_data = a;
  short = b;
  no_syn = refl;
  spans = refl;
  word = omega arith;
}

-- Behind the SYN.
abbrev established : RangeManager
established = record (new_range_manager 1000) { last_seq = 1 }

established-Holds : Holds 1 established
unfolding covers top
established-Holds = record {
  in_order = tt;
  exact = λ x. ground arith;
  ends = omega arith;
  starts = omega arith;
}

insert_sent_range-Holds_example : HoldsUpTo 1 11 (insert_sent_range (segment_at 1 10 1) established)
insert_sent_range-Holds_example =
    insert_sent_range-Holds 1 (segment_at 1 10 1) established established-Holds
      (segment_at-IsSegment 1 10 1 (omega arith) (omega arith) (omega arith)) (omega arith)
      (omega arith)

-- Two segments, and the second half of the first one with the second one, bundled.
abbrev stream : List DataSeg
stream = segment_at 1 10 1 ∷ segment_at 11 10 1 ∷ segment_at 6 20 1 ∷ []

stream-Follows : Follows 1 1 stream
stream-Follows = (
  segment_at-IsSegment 1 10 1 (omega arith) (omega arith) (omega arith),
  omega arith,
  omega arith,
  (
    segment_at-IsSegment 11 10 1 (omega arith) (omega arith) (omega arith),
    omega arith,
    omega arith,
    (
      segment_at-IsSegment 6 20 1 (omega arith) (omega arith) (omega arith),
      omega arith,
      omega arith,
      tt,
    ),
  ),
)

insert_all-Holds_example : HoldsUpTo 1 26 (insert_all stream established)
insert_all-Holds_example = insert_all-Holds 1 stream established established-Holds stream-Follows

abbrev acked_part : RangeManager
acked_part = record established { ranges = (1, fresh_range 1 11) ∷ (11, fresh_range 11 21) ∷ [] }

acked_part-Disjoint : Disjoint 0 acked_part.ranges
acked_part-Disjoint = (
  omega arith,
  refl,
  fresh_range-IsRange 1 11 (omega arith) (omega arith) (omega arith),
  (omega arith, refl, fresh_range-IsRange 11 21 (omega arith) (omega arith) (omega arith), tt),
)

-- The same ranges, each sent in one packet.
abbrev sent_once : ℕ → ℕ → ByteRange
sent_once start end = increase_sent 5 1 zero_time false SentType.st_pkt (fresh_range start end)

abbrev sent_part : RangeManager
sent_part = record established { ranges = (1, sent_once 1 11) ∷ (11, sent_once 11 21) ∷ [] }

sent_part-Disjoint : Disjoint 0 sent_part.ranges
unfolding increase_sent
sent_part-Disjoint = (omega arith, refl, omega arith, (omega arith, refl, omega arith, tt))

process_ack-Returns_example : Returns (process_ack (segment_at 0 0 6) sent_part)
unfolding AllSent StartsWell increase_sent
process_ack-Returns_example =
    process_ack-Returns (segment_at 0 0 6) sent_part sent_part-Disjoint
      (((zero_time, SentType.st_pkt), refl), (((zero_time, SentType.st_pkt), refl), tt)) (inr refl)
      (λ e. ground arith)

-- An empty range at 0 that was sent and sent again, and ten bytes behind it, which are acked.
abbrev sent_again : ByteRange
sent_again =
    increase_sent 5 1 zero_time false SentType.st_rtr
      (increase_sent 5 1 zero_time false SentType.st_pkt (fresh_range 0 0))

abbrev again_part : RangeManager
again_part = record established {
  ranges = (0, sent_again) ∷ (1, sent_once 1 11) ∷ [];
  highest_acked = some 1;
}

process_ack_leaves_example : process_ack (segment_at 0 0 1) again_part ≡ err Fault.out_of_range
unfolding increase_sent
process_ack_leaves_example =
    process_ack_leaves (segment_at 0 0 1) again_part 0 sent_again (sent_once 1 11) [] refl refl
      (omega arith) (omega arith) refl (omega arith) refl refl (λ e. ground arith)

-- The ack of the first range and of a part of the second one.
process_ack-Parted_example :
    (rm' : RangeManager) × (process_ack (segment_at 0 0 16) sent_part ≡ ok (rm', true))
    × Parted 16 11 11 21 sent_part.ranges rm'
    × AllAcked rm'.ranges (1 ∷ [])
    × Refines sent_part.ranges rm'.ranges
unfolding increase_sent find keys_from timer_lt
process_ack-Parted_example =
    process_ack-Parted (segment_at 0 0 16) sent_part 11 (1 ∷ []) [] (sent_once 11 21)
      sent_part-Disjoint refl
      (
        (
          sent_once 1 11,
          refl,
          record {
            further = omega arith;
            no_ack_range = refl;
            sent = (zero_time, SentType.st_pkt);
            sent_first = refl;
            in_time = refl;
          },
        ),
        tt,
      )
      refl (omega arith) (omega arith)
