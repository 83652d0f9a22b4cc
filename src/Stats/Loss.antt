-- ===== src/Stats/Loss.antt =====
-- `RangeManager::calculateRealLoss` of RangeManager.cc: the counters of the analysed ranges, less what is
-- only printed (the timestamps that did not match, and the number of lost packets, which the function
-- computes and does not keep); and `Connection::getNumUniqueBytes` of Connection.cc.
use analyse_tcp.Prelude.{
  ℕ, ◌+◌, ◌*◌, Bool, true, false, not, ◌&&◌, ◌==◌, if◌then◌else◌, max, Option, none, some, [], ◌∷◌,
  Result, ok, err, Fault,
}
use analyse_tcp.Words.{add32, add64, sub32, sub64}
use analyse_tcp.Range.{ByteRange, ReceivedType, match_received_type, to_ℕ}
use analyse_tcp.RangeMap.{RangeMap}

-- The counters that calculateRealLoss adds to. An `int` is the 32-bit word that holds it.
pub record Analysis : Type 0 where
  pub lost_ranges_count : ℕ
  pub lost_bytes : ℕ
  pub sent_ranges_count : ℕ
  pub redundant_bytes : ℕ
  pub data_packet_count : ℕ
  pub retr_no_payload_packet_count : ℕ
  pub syn_count : ℕ
  pub fin_count : ℕ
  pub rst_count : ℕ
  pub pure_acks_count : ℕ
  pub rdb_packet_count : ℕ
  pub bytes_sent : ℕ
  pub bytes_sent_unique : ℕ
  pub packet_sent_count : ℕ
  pub max_range_payload : ℕ
  pub retr_packet_count : ℕ
  pub bytes_retransmitted : ℕ
  pub ack_count : ℕ
  pub packet_sent_count_in_dump : ℕ
  pub packet_received_count : ℕ
  pub rdb_packet_hits : ℕ
  pub rdb_packet_misses : ℕ
  pub rdb_byte_hits : ℕ
  pub rdb_byte_miss : ℕ

-- As the constructor of RangeManager sets them.
abbrev pub new_analysis : Analysis
new_analysis = record {
  lost_ranges_count = 0;
  lost_bytes = 0;
  sent_ranges_count = 0;
  redundant_bytes = 0;
  data_packet_count = 0;
  retr_no_payload_packet_count = 0;
  syn_count = 0;
  fin_count = 0;
  rst_count = 0;
  pure_acks_count = 0;
  rdb_packet_count = 0;
  bytes_sent = 0;
  bytes_sent_unique = 0;
  packet_sent_count = 0;
  max_range_payload = 0;
  retr_packet_count = 0;
  bytes_retransmitted = 0;
  ack_count = 0;
  packet_sent_count_in_dump = 0;
  packet_received_count = 0;
  rdb_packet_hits = 0;
  rdb_packet_misses = 0;
  rdb_byte_hits = 0;
  rdb_byte_miss = 0;
}

abbrev pub is_rdb_type : ReceivedType → Bool
is_rdb_type ReceivedType.rdb = true
is_rdb_type _ = false

-- The counters after the packets of one range.
unfoldable pub count_range : Bool → ByteRange → Analysis → Analysis
count_range with_recv br a =
    let filled = not (br.byte_count == 0) in
    let as_rdb = is_rdb_type br.recv_type in
    let lost = with_recv && not (br.data_sent_count == br.data_received_count) in
    let missing = sub64 br.data_sent_count br.data_received_count in
    record a {
      rdb_byte_hits =
          if not (br.rdb_count == 0) && as_rdb
          then add64 a.rdb_byte_hits br.byte_count
          else a.rdb_byte_hits;
      rdb_packet_hits = if as_rdb then add32 a.rdb_packet_hits 1 else a.rdb_packet_hits;
      rdb_byte_miss = add64 a.rdb_byte_miss (br.rdb_miss_count * br.byte_count);
      sent_ranges_count = add64 a.sent_ranges_count br.data_sent_count;
      redundant_bytes =
          add64 a.redundant_bytes (br.byte_count * (br.data_retrans_count + br.rdb_count));
      data_packet_count =
          if filled
          then add32 a.data_packet_count (1 + br.data_retrans_count)
          else a.data_packet_count;
      retr_no_payload_packet_count =
          if filled
          then a.retr_no_payload_packet_count
          else add32 a.retr_no_payload_packet_count br.packet_retrans_count;
      syn_count = add32 a.syn_count br.syn;
      fin_count = add32 a.fin_count br.fin;
      rst_count = add32 a.rst_count br.rst;
      pure_acks_count = add32 a.pure_acks_count br.acked_sent;
      rdb_packet_count = add32 a.rdb_packet_count (to_ℕ br.original_packet_is_rdb);
      bytes_sent = add64 a.bytes_sent (br.data_sent_count * br.byte_count);
      bytes_sent_unique = add64 a.bytes_sent_unique br.byte_count;
      packet_sent_count = add32 a.packet_sent_count (
          br.syn
          + br.rst
          + (if filled then 0 else br.fin)
          + to_ℕ filled
          + br.data_retrans_count
          + br.acked_sent);
      max_range_payload = max a.max_range_payload br.original_payload_size;
      retr_packet_count = add32 a.retr_packet_count br.packet_retrans_count;
      bytes_retransmitted = add64 a.bytes_retransmitted (br.data_retrans_count * br.byte_count);
      ack_count = add32 a.ack_count br.ack_count;
      packet_sent_count_in_dump =
          add32 a.packet_sent_count_in_dump
            (br.packet_sent_count + br.packet_retrans_count + br.acked_sent);
      packet_received_count = add32 a.packet_received_count br.packet_received_count;
      lost_ranges_count = if lost then add64 a.lost_ranges_count missing else a.lost_ranges_count;
      lost_bytes = if lost then add64 a.lost_bytes (missing * br.byte_count) else a.lost_bytes;
    }

-- What the loop writes on the range itself. The type is looked for if there is a receiver's trace.
unfoldable pub match_range : Bool → ByteRange → ByteRange
match_range with_recv br =
    let matched : ByteRange = if with_recv then (match_received_type br).0 else br in
    if not (matched.rdb_count == 0) && is_rdb_type matched.recv_type
    then record matched { rdb_hit_count = 1 }
    else matched

-- The loop over the ranges that are analysed.
unfoldable pub loss_loop : Bool → RangeMap → Analysis → RangeMap × Analysis
loss_loop with_recv [] a = ([], a)
loss_loop with_recv ((k, br) ∷ m) a =
    let br' = match_range with_recv br in
    let rest = loss_loop with_recv m (count_range with_recv br' a) in ((k, br') ∷ rest.0, rest.1)

-- `calculateRealLoss`
unfoldable pub calculate_real_loss : Bool → RangeMap → Analysis → RangeMap × Analysis
calculate_real_loss with_recv m a =
    let r = loss_loop with_recv m a in
    (r.0, record r.1 { rdb_packet_misses = sub32 r.1.rdb_packet_count r.1.rdb_packet_hits })

-- The start of the first range with data, and the end of the last one.
unfoldable pub first_data : RangeMap → ℕ
first_data [] = 0
first_data ((k, br) ∷ m) = if br.byte_count == 0 then first_data m else br.start_seq

unfoldable pub last_data : RangeMap → Option ℕ
last_data [] = none
last_data ((k, br) ∷ m) = elim (last_data m) as (λ _. Option ℕ) [
  | some e ↦ some e
  | none ↦ if br.byte_count == 0 then none else some br.end_seq
]

-- `getNumUniqueBytes`, on the ranges that are analysed. The search from the end stops before the first of
-- them.
unfoldable pub get_num_unique_bytes : RangeMap → Result ℕ
get_num_unique_bytes [] = err Fault.out_of_range
get_num_unique_bytes (e ∷ m) =
    ok (sub64 (elim (last_data m) [ none ↦ 0 | some s ↦ s ]) (first_data (e ∷ m)))
