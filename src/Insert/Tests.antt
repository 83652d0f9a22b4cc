-- ===== src/Insert/Tests.antt =====
-- Runs of insertByteRange.
use analyse_tcp.Prelude.{
  ℕ, ◌≡◌, refl, Bool, true, false, List, [], ◌∷◌, map, Result, ok, err, arith,
}
use analyse_tcp.Time.{zero_time}
use analyse_tcp.Range.{DataSeg, has_flag, increase_sent, split_end}
use analyse_tcp.Range.Split.{fresh_range, fresh_range-IsRange}
use analyse_tcp.RangeMap.{RangeMap, find, insert, set, from_before, up_to, containing}
use analyse_tcp.RangeMap.Order.{Disjoint}
use analyse_tcp.RangeMap.Cover.{covers}
use analyse_tcp.RangeMap.Pieces.{top}
use analyse_tcp.Insert.{insert_byte_range, InsertType}
use analyse_tcp.Insert.Marks.{mark_split, mark_sent_again}
use analyse_tcp.Insert.Steps.{
  insert_step, insert_found, insert_not_found, insert_shorter, split_containing, split_beyond,
}
use analyse_tcp.Insert.Returns.{Returns, insert_byte_range-Returns}
use analyse_tcp.Insert.Whole.{Inserted, Ready, insert_byte_range-Inserted}

-- Ten bytes from 6 on, sent again.
abbrev again : DataSeg
again = record {
  seq = 6;
  end_seq = 16;
  rdb_end_seq = 0;
  seq_absolute = 1006;
  ack = 0;
  window = 0;
  payload_size = 10;
  retrans = true;
  is_rdb = false;
  sacks = false;
  in_sequence = false;
  tstamp_pcap = zero_time;
  tstamp_tcp = 1;
  tstamp_tcp_echo = 1;
  tcp_sacks = [];
  flags = 0x10;
}

abbrev two_segments : RangeMap
two_segments = (1, fresh_range 1 11) ∷ (11, fresh_range 11 21) ∷ []

places : Result (RangeMap × Bool) → List (ℕ × ℕ)
places (ok (m, b)) = map (λ e. (e.0, e.1.end_seq)) m
places (err f) = []

-- Both ranges are split.
split_twice :
    places (insert_byte_range 100 InsertType.insert_sent again 1000 21 0 6 16 two_segments)
    ≡ (1, 6) ∷ (6, 11) ∷ (11, 16) ∷ (16, 21) ∷ []
unfolding places insert_byte_range insert_step insert_found insert_not_found find from_before up_to
    containing split_containing split_beyond insert_shorter split_end mark_split mark_sent_again
    insert set increase_sent
split_twice = refl

two_segments-Disjoint : Disjoint 0 two_segments
two_segments-Disjoint = (
  omega arith,
  refl,
  fresh_range-IsRange 1 11 (omega arith) (omega arith) (omega arith),
  (omega arith, refl, fresh_range-IsRange 11 21 (omega arith) (omega arith) (omega arith), tt),
)

two_segments-Ready : Ready InsertType.insert_sent 21 6 two_segments
unfolding top covers
two_segments-Ready e = ((λ x lo hi. ground arith), omega arith)

insert_byte_range-Inserted_example :
    Inserted InsertType.insert_sent 6 16 two_segments
      (insert_byte_range 1600 InsertType.insert_sent again 1000 21 0 6 16 two_segments)
insert_byte_range-Inserted_example =
    insert_byte_range-Inserted 1600 InsertType.insert_sent again 1000 21 0 6 16 two_segments
      (omega arith) (omega arith) (omega arith) (omega arith) two_segments-Disjoint
      two_segments-Ready

insert_byte_range-Returns_example :
    Returns (insert_byte_range 1600 InsertType.insert_sent again 1000 21 0 6 16 two_segments)
unfolding covers has_flag
insert_byte_range-Returns_example =
    insert_byte_range-Returns 1600 again 1000 21 0 6 16 two_segments (omega arith) (omega arith)
      (omega arith) (omega arith) refl two_segments-Disjoint (λ x lo hi. ground arith)
