-- ===== src/Conn.antt =====
-- `class Connection` of Connection.h and Connection.cc as far as the registration of packets goes: the
-- counters of what was sent and the largest sequence numbers seen, with the RangeManager.
pub mod Accounts
mod Classes
pub mod InStep
pub mod Numbers
mod Tests
use analyse_tcp.Prelude.{
  ℕ, ◌+◌, ◌-◌, Bool, true, false, not, ◌&&◌, ◌||◌, ltb, leb, ◌==◌, if◌then◌else◌, max, Option, none,
  some, Result, ok, ◌>>=◌,
}
use analyse_tcp.Words.{add32, add64, sub64, invalid_seq}
use analyse_tcp.Seq.{get_relative_sequence_number}
use analyse_tcp.Range.{DataSeg, has_flag, th_syn}
use analyse_tcp.Manager.{RangeManager, new_range_manager, insert_sent_range, insert_received_range}
use analyse_tcp.Manager.Ack.{process_ack}

pub record SendData : Type 0 where
  pub total_size : ℕ
  pub ip_size : ℕ
  pub ip_hdr_len : ℕ
  pub tcp_hdr_len : ℕ
  pub tcp_option_len : ℕ
  pub segment : DataSeg

pub record Connection : Type 0 where
  pub nr_packets_sent : ℕ
  pub nr_data_packets_sent : ℕ
  pub tot_packet_size : ℕ
  pub tot_bytes_sent : ℕ
  pub tot_rdb_bytes_sent : ℕ
  pub tot_new_data_sent : ℕ
  pub tot_retrans_bytes_sent : ℕ
  pub nr_retrans : ℕ
  pub bundle_count : ℕ
  pub last_largest_start_seq : ℕ
  pub last_largest_end_seq : ℕ
  pub last_largest_seq_absolute : ℕ
  pub last_largest_recv_end_seq : ℕ
  pub last_largest_recv_seq_absolute : ℕ
  pub last_largest_ack_seq : ℕ
  pub last_largest_ack_seq_absolute : ℕ
  pub last_largest_sojourn_end_seq : ℕ
  pub last_largest_sojourn_seq_absolute : ℕ
  pub closed : Bool
  pub ignored_count : ℕ
  pub rm : RangeManager

-- The constructor, for the first sequence number.
abbrev pub new_connection : ℕ → Connection
new_connection seq = record {
  nr_packets_sent = 0;
  nr_data_packets_sent = 0;
  tot_packet_size = 0;
  tot_bytes_sent = 0;
  tot_rdb_bytes_sent = 0;
  tot_new_data_sent = 0;
  tot_retrans_bytes_sent = 0;
  nr_retrans = 0;
  bundle_count = 0;
  last_largest_start_seq = 0;
  last_largest_end_seq = 0;
  last_largest_seq_absolute = seq;
  last_largest_recv_end_seq = 0;
  last_largest_recv_seq_absolute = seq;
  last_largest_ack_seq = 0;
  last_largest_ack_seq_absolute = seq;
  last_largest_sojourn_end_seq = 0;
  last_largest_sojourn_seq_absolute = 0;
  closed = false;
  ignored_count = 0;
  rm = new_range_manager seq;
}

pub data RelativeSeqType : Type 0 where
  relseq_none relseq_send_out relseq_send_ack relseq_recv_inn relseq_soj_seq : RelativeSeqType

-- `Connection::getRelativeSequenceNumber`
unfoldable pub relative_sequence_number : ℕ → RelativeSeqType → Connection → Result ℕ
relative_sequence_number seq RelativeSeqType.relseq_send_out c =
    get_relative_sequence_number seq c.rm.first_seq c.last_largest_end_seq
      c.last_largest_seq_absolute
relative_sequence_number seq RelativeSeqType.relseq_send_ack c =
    get_relative_sequence_number seq c.rm.first_seq c.last_largest_ack_seq
      c.last_largest_ack_seq_absolute
relative_sequence_number seq RelativeSeqType.relseq_recv_inn c =
    get_relative_sequence_number seq c.rm.first_seq c.last_largest_recv_end_seq
      c.last_largest_recv_seq_absolute
relative_sequence_number seq RelativeSeqType.relseq_soj_seq c =
    get_relative_sequence_number seq c.rm.first_seq c.last_largest_sojourn_end_seq
      c.last_largest_sojourn_seq_absolute
relative_sequence_number seq RelativeSeqType.relseq_none c = ok invalid_seq

-- `std::labs` of the difference of two sequence numbers.
abbrev pub distance : ℕ → ℕ → ℕ
distance a b = max (a - b) (b - a)

-- What `registerSent` does about a segment that does not follow the last one; `none` if it is ignored.
-- A SYN either closes the connection or moves its first sequence number.
unfoldable pub check_expected : DataSeg → Connection → Option (Connection × DataSeg)
check_expected seg c =
    if ltb c.last_largest_end_seq seg.end_seq && not (add64 c.last_largest_end_seq 1 == seg.seq)
    then (if c.closed
        then none
        else if has_flag seg.flags th_syn
        then (if ltb 10 (distance seg.seq_absolute c.rm.first_seq)
            then some (record c { closed = true }, seg)
            else some (
              record c { rm = record c.rm { first_seq = seg.seq_absolute } },
              record seg { seq = 0; end_seq = 0 },
            ))
        else some (c, seg))
    else some (c, seg)

-- The three tests for new data that is bundled with data that was sent before.
abbrev pub bundles : DataSeg → Connection → Bool
bundles seg c =
    let new = ltb c.last_largest_end_seq seg.end_seq in
    (seg.seq == c.last_largest_start_seq
      && new
      && not (add64 c.last_largest_start_seq c.last_largest_end_seq == 0))
    || (ltb c.last_largest_start_seq seg.seq && ltb seg.seq c.last_largest_end_seq && new)
    || (ltb seg.seq c.last_largest_end_seq && new)

-- A segment with a payload: new data, bundled or not, or a retransmission.
unfoldable pub register_payload : DataSeg → Connection → Connection × DataSeg
register_payload seg c =
    let counted : Connection = record c {
      nr_data_packets_sent = add64 c.nr_data_packets_sent 1;
      last_largest_start_seq = seg.seq;
      tot_bytes_sent = add64 c.tot_bytes_sent seg.payload_size;
    } in
    if ltb c.last_largest_end_seq seg.end_seq
    then (let b = bundles seg c in
        let old = sub64 c.last_largest_end_seq seg.seq in
        let new = sub64 seg.end_seq c.last_largest_end_seq in
        (
          record counted {
            bundle_count = if b then add64 c.bundle_count 1 else c.bundle_count;
            tot_rdb_bytes_sent = if b then add64 c.tot_rdb_bytes_sent old else c.tot_rdb_bytes_sent;
            tot_new_data_sent = add64 c.tot_new_data_sent (if b then new else seg.payload_size);
            last_largest_end_seq = seg.end_seq;
            last_largest_seq_absolute = add32 seg.seq_absolute seg.payload_size;
          },
          record seg {
            is_rdb = if b then true else seg.is_rdb;
            rdb_end_seq = if b then c.last_largest_end_seq else seg.rdb_end_seq;
          },
        ))
    else (
      record counted {
        nr_retrans = add64 c.nr_retrans 1;
        tot_retrans_bytes_sent = add64 c.tot_retrans_bytes_sent seg.payload_size;
      },
      record seg { retrans = true },
    )

-- `registerSent`: the connection, the segment as it changed it, and what it returns.
unfoldable pub register_sent : SendData → Connection → Connection × DataSeg × Bool
register_sent sd c =
    let counted : Connection = record c {
      tot_packet_size = add64 c.tot_packet_size sd.total_size;
      nr_packets_sent = add64 c.nr_packets_sent 1;
    } in
    elim (check_expected sd.segment counted) as (λ _. Connection × DataSeg × Bool) [
      | none ↦ (record counted { ignored_count = counted.ignored_count + 1 }, sd.segment, false)
      | some p ↦
          if p.1.payload_size == 0
          then (p.0, p.1, true)
          else (let r = register_payload p.1 p.0 in (r.0, r.1, true))
    ]

-- `registerRange`
unfoldable pub register_range : DataSeg → Connection → Result Connection
register_range seg c = do rm ← insert_sent_range seg c.rm; ok (record c { rm = rm })

-- `registerRecvd`
pub register_recvd : DataSeg → Connection → Result Connection
register_recvd seg c = do
  let expected =
      leb seg.seq c.last_largest_recv_end_seq && ltb c.last_largest_recv_end_seq seg.end_seq
  rm ←
      insert_received_range
        (record seg { in_sequence = if expected then true else seg.in_sequence }) c.rm
  ok (record c {
    rm = rm;
    last_largest_recv_end_seq = seg.end_seq;
    last_largest_recv_seq_absolute = add32 seg.seq_absolute seg.payload_size;
  })

-- `registerAck`
pub register_ack : DataSeg → Connection → Result (Connection × Bool)
register_ack seg c = do
  r ← process_ack seg c.rm
  let acked : Connection = record c { rm = r.0 }
  ok (
    if r.1
        then record acked {
          last_largest_ack_seq = seg.end_seq;
          last_largest_ack_seq_absolute = add32 seg.seq_absolute seg.payload_size;
        }
        else acked,
    r.1,
  )
