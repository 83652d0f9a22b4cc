-- ===== src/Manager.antt =====
-- The state of a RangeManager of RangeManager.h as far as the insertion of segments and the acks change
-- it, and `RangeManager::insertSentRange` and `insertReceivedRange` of RangeManager.cc.
pub mod Ack
pub mod Acked
pub mod AckSplit
pub mod Known
pub mod AckReturns
mod AckFault
pub mod Stream
mod Tests
use analyse_tcp.Prelude.{
  ℕ, ◌+◌, ◌-◌, Bool, true, false, not, ◌&&◌, ltb, leb, ◌==◌, if◌then◌else◌, Option, none, some, [],
  Result, ok, ◌>>=◌,
}
use analyse_tcp.Words.{add32, add64, sub64}
use analyse_tcp.Time.{zero_time}
use analyse_tcp.Range.{DataSeg, has_flag, th_rst, th_syn}
use analyse_tcp.RangeMap.{RangeMap}
use analyse_tcp.Insert.{insert_byte_range, InsertType, is_sent}

pub record RangeManager : Type 0 where
  pub ranges : RangeMap
  pub first_seq : ℕ
  pub last_seq : ℕ
  -- The key of the entry that `highestAckedByteRangeIt` points to; `none` is end().
  pub highest_acked : Option ℕ
  pub analysed_sent_pure_ack_count : ℕ
  pub ack_count : ℕ
  -- An `int`, as the 32-bit word that holds it.
  pub redundant_bytes : ℕ

-- The constructor, given the first sequence number.
abbrev pub new_range_manager : ℕ → RangeManager
new_range_manager seq = record {
  ranges = [];
  first_seq = seq;
  last_seq = 0;
  highest_acked = none;
  analysed_sent_pure_ack_count = 0;
  ack_count = 0;
  redundant_bytes = 0;
}

-- Fuel for every byte of a segment and every level of the recursion.
abbrev pub segment_fuel : ℕ → ℕ → ℕ
segment_fuel start_seq end_seq = (end_seq - start_seq) + 1503

-- `insertByteRange(start, end, itype, seg, 0)` on the manager's map. Only the first call of the
-- recursion can have a segment without payload, and count it.
unfoldable pub insert_segment : InsertType → DataSeg → ℕ → ℕ → RangeManager → Result RangeManager
insert_segment itype seg start_seq end_seq rm = do
  r ←
      insert_byte_range (segment_fuel start_seq end_seq) itype seg rm.first_seq rm.last_seq 0
        start_seq end_seq rm.ranges
  let counted = start_seq == end_seq && is_sent itype
  ok (record rm {
    ranges = r.0;
    analysed_sent_pure_ack_count =
        if counted then rm.analysed_sent_pure_ack_count + 1 else rm.analysed_sent_pure_ack_count;
  })

-- What `insertSentRange` does behind its insertion. Its second test of `startSeq > lastSeq` is never
-- reached with the condition true, since the first one takes these segments and does nothing.
unfoldable pub advance_last_seq : DataSeg → RangeManager → RangeManager
advance_last_seq seg rm =
    let start_seq = seg.seq in
    let end_seq = seg.end_seq in
    let behind = add64 start_seq seg.payload_size in
    if seg.payload_size == 0
    then (if not (has_flag seg.flags th_rst)
        then record rm { last_seq = if has_flag seg.flags th_syn then add64 end_seq 1 else end_seq }
        else rm)
    else if start_seq == rm.last_seq
    then record rm { last_seq = behind }
    else if ltb rm.last_seq start_seq
    then rm
    else if ltb rm.last_seq start_seq
    then record rm { last_seq = behind }
    else if ltb start_seq rm.last_seq
    then (if leb end_seq rm.last_seq
        then record rm {
          redundant_bytes = add32 rm.redundant_bytes (sub64 (add64 end_seq 1) start_seq);
        }
        else record rm { last_seq = behind })
    else rm

-- `insertSentRange`
unfoldable pub insert_sent_range : DataSeg → RangeManager → Result RangeManager
insert_sent_range seg rm = do
  rm' ← insert_segment InsertType.insert_sent seg seg.seq seg.end_seq rm
  ok (advance_last_seq seg rm')

-- The segment that `insertReceivedRange` passes on. What it does not copy keeps the value that the
-- constructor of DataSeg gives; `sacks`, which has none, is taken as false.
abbrev pub received_copy : DataSeg → DataSeg
received_copy seg = record seg {
  rdb_end_seq = 0;
  seq_absolute = 0;
  ack = 0;
  sacks = false;
  in_sequence = false;
  tstamp_tcp_echo = 0;
  tcp_sacks = [];
}

-- `insertReceivedRange`
unfoldable pub insert_received_range : DataSeg → RangeManager → Result RangeManager
insert_received_range seg rm =
    insert_segment InsertType.insert_recv (received_copy seg) seg.seq seg.end_seq rm
