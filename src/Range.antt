-- ===== src/Range.antt =====
-- `class ByteRange` of ByteRange.h and ByteRange.cc: a range of bytes of the stream and what the traces
-- say of it.
-- The 8- and 16-bit counters keep their width. `received_tstamp_pcap`, which the constructor leaves
-- unset, starts as zero here; it is read only behind a test of `data_received_count`.
pub mod Counters
pub mod Split
mod Tests
pub use analyse_tcp.Segment.{
  SentType, ReceivedType, is_pkt, is_rtr, is_pure_ack, is_rst, DataSeg, th_fin, th_syn, th_rst,
  to_ℕ,
}
unfoldable pub use analyse_tcp.Segment.{has_flag}
use analyse_tcp.Prelude.{
  ℕ, suc, ◌+◌, ◌-◌, ◌*◌, ◌%◌, Bool, true, false, not, ◌&&◌, ◌||◌, ltb, ◌==◌, if◌then◌else◌, Option,
  none, some, List, [], ◌∷◌, ◌++◌, map, length, get_elem?, Result, ok, err, assert, ◌>>=◌, ◌>>◌,
  or_out_of_range,
}
use analyse_tcp.Prelude.Int.{ℤ, pos, negsuc, ◌-ℤ◌, ◌+ℤ◌, ◌*ℤ◌, leb_ℤ, ltb_ℤ, eqb_ℤ}
use analyse_tcp.Words.{add8, u16_mod, sub64}
use analyse_tcp.Time.{Timeval, zero_time, is_zero, get_usecs, timersub, negtimersub, quot_ℤ}

pub record ByteRange : Type 0 where
  pub start_seq : ℕ
  pub end_seq : ℕ
  pub byte_count : ℕ
  pub original_payload_size : ℕ
  pub packet_sent_count : ℕ
  pub packet_retrans_count : ℕ
  pub packet_received_count : ℕ
  pub data_received_count : ℕ
  pub data_sent_count : ℕ
  pub data_retrans_count : ℕ
  pub rdb_count : ℕ
  pub rdb_miss_count : ℕ
  pub rdb_hit_count : ℕ
  pub sojourn_tstamps : List (ℕ × Timeval)
  pub sent_tstamp_pcap : List (Timeval × SentType)
  pub received_tstamp_pcap : Timeval
  pub send_tcp_stamp_recv_index : ℕ
  pub received_tstamp_tcp : ℕ
  pub tstamps_tcp : List (ℕ × ℕ)
  pub rdb_tstamps_tcp : List ℕ
  pub tcp_sacks : List (List (ℕ × ℕ))
  pub lost_tstamps_tcp : List (ℕ × Timeval)
  pub ack_time : Timeval
  pub acked : Bool
  pub original_packet_is_rdb : Bool
  pub recv_type : ReceivedType
  pub sojourn_time : Bool
  pub app_layer_latency_tstamp : Bool
  pub recv_type_num : ℕ
  pub sent_data_pkt_pcap_index : ℤ
  pub fin : ℕ
  pub syn : ℕ
  pub rst : ℕ
  pub acked_sent : ℕ
  pub ack_count : ℕ
  pub dupack_count : ℕ
  pub tcp_window : ℕ
  pub diff : ℤ

-- `updateByteCount`
unfoldable pub update_byte_count : ByteRange → Result ByteRange
update_byte_count br = do
  let size = sub64 br.end_seq br.start_seq
  assert (ltb size 65535)
  ok (record br { byte_count = size % u16_mod })

-- The fields as the constructor sets them before and after its call of `updateByteCount`.
abbrev blank : ℕ → ℕ → ByteRange
blank start end = record {
  start_seq = start;
  end_seq = end;
  byte_count = 0;
  original_payload_size = 0;
  packet_sent_count = 0;
  packet_retrans_count = 0;
  packet_received_count = 0;
  data_received_count = 0;
  data_sent_count = 0;
  data_retrans_count = 0;
  rdb_count = 0;
  rdb_miss_count = 0;
  rdb_hit_count = 0;
  sojourn_tstamps = [];
  sent_tstamp_pcap = [];
  received_tstamp_pcap = zero_time;
  send_tcp_stamp_recv_index = 0;
  received_tstamp_tcp = 0;
  tstamps_tcp = [];
  rdb_tstamps_tcp = [];
  tcp_sacks = [];
  lost_tstamps_tcp = [];
  ack_time = zero_time;
  acked = false;
  original_packet_is_rdb = false;
  recv_type = ReceivedType.def;
  sojourn_time = false;
  app_layer_latency_tstamp = false;
  recv_type_num = 1;
  sent_data_pkt_pcap_index = negsuc 0;
  fin = 0;
  syn = 0;
  rst = 0;
  acked_sent = 0;
  ack_count = 0;
  dupack_count = 0;
  tcp_window = 0;
  diff = pos 0;
}

-- The constructor `ByteRange(start, end)`.
unfoldable pub new_byte_range : ℕ → ℕ → Result ByteRange
unfolding update_byte_count
new_byte_range start end = do
  br ← update_byte_count (blank start end)
  ok (record br { original_payload_size = br.byte_count })

-- The first entry with this time stamp is erased.
unfoldable pub erase_tstamp : ℕ → List (ℕ × Timeval) → List (ℕ × Timeval)
erase_tstamp t [] = []
erase_tstamp t ((s, tv) ∷ l) = if s == t then l else (s, tv) ∷ erase_tstamp t l

unfoldable pub increase_received : ℕ → Timeval → Bool → ByteRange → ByteRange
increase_received tstamp_tcp tstamp_pcap in_sequence br =
    let first = br.data_received_count == 0 in
    record br {
      app_layer_latency_tstamp = if first then in_sequence else br.app_layer_latency_tstamp;
      received_tstamp_tcp = if first then tstamp_tcp else br.received_tstamp_tcp;
      received_tstamp_pcap = if first then tstamp_pcap else br.received_tstamp_pcap;
      data_received_count = add8 br.data_received_count 1;
      lost_tstamps_tcp = erase_tstamp tstamp_tcp br.lost_tstamps_tcp;
    }

-- static_cast<int16_t>
abbrev pub to_int16 : ℕ → ℤ
to_int16 n = if ltb (n % u16_mod) 32768 then pos (n % u16_mod) else negsuc (65535 - n % u16_mod)

unfoldable pub increase_sent : ℕ → ℕ → Timeval → Bool → SentType → ByteRange → ByteRange
increase_sent tcp_tsval tcp_tsecr tstamp_pcap as_rdb sent_t br = record br {
  rdb_tstamps_tcp = if as_rdb then br.rdb_tstamps_tcp ++ tcp_tsval ∷ [] else br.rdb_tstamps_tcp;
  tstamps_tcp = if as_rdb then br.tstamps_tcp else br.tstamps_tcp ++ (tcp_tsval, tcp_tsecr) ∷ [];
  packet_sent_count =
      if is_pkt sent_t || is_rst sent_t then add8 br.packet_sent_count 1 else br.packet_sent_count;
  packet_retrans_count =
      if is_rtr sent_t then add8 br.packet_retrans_count 1 else br.packet_retrans_count;
  acked_sent = if is_pure_ack sent_t then add8 br.acked_sent 1 else br.acked_sent;
  data_sent_count =
      if is_pure_ack sent_t || is_rst sent_t then br.data_sent_count else add8 br.data_sent_count 1;
  sent_data_pkt_pcap_index =
      if is_pkt sent_t then to_int16 (length br.sent_tstamp_pcap) else br.sent_data_pkt_pcap_index;
  sent_tstamp_pcap = br.sent_tstamp_pcap ++ (tstamp_pcap, sent_t) ∷ [];
  lost_tstamps_tcp = br.lost_tstamps_tcp ++ (tcp_tsval, tstamp_pcap) ∷ [];
}

-- `split`: the new range, and this one with its byte count brought up to date. `received_tstamp_pcap`, which
-- the source leaves unset in the new range, is zero here.
unfoldable pub split : ℕ → ℕ → ByteRange → Result (ByteRange × ByteRange)
unfolding new_byte_range
split start end br = do
  new_br ← new_byte_range start end
  br' ← update_byte_count br
  ok (
    br',
    record new_br {
      data_retrans_count = br.data_retrans_count;
      data_sent_count = br.data_sent_count;
      data_received_count = br.data_received_count;
      received_tstamp_tcp = br.received_tstamp_tcp;
      tstamps_tcp = br.tstamps_tcp;
      rdb_tstamps_tcp = br.rdb_tstamps_tcp;
      ack_time = br.ack_time;
      acked = br.acked;
      sent_tstamp_pcap = map (λ s. (s.0, SentType.st_none)) br.sent_tstamp_pcap;
    },
  )

-- `splitEnd`
unfoldable pub split_end : ℕ → ℕ → ByteRange → Result (ByteRange × ByteRange)
unfolding split
split_end start end br = split start end (record br { end_seq = start })

unfoldable pub register_sacks : DataSeg → ByteRange → ByteRange
register_sacks seg br = record br { tcp_sacks = br.tcp_sacks ++ seg.tcp_sacks ∷ [] }

unfoldable pub insert_ack_time : Timeval → ByteRange → ByteRange
insert_ack_time tv br = record br { ack_time = tv; acked = true }

-- The position of the first element that passes the test, counted from `i`.
unfoldable pub index_from {ℓ} : {A : Type ℓ} → (A → Bool) → List A → ℕ → Option ℕ
index_from p [] i = none
index_from p (x ∷ l) i = if p x then some i else index_from p l (i + 1)

-- `matchReceivedType`, less its printing.
unfoldable pub match_received_type : ByteRange → ByteRange × Bool
unfolding index_from
match_received_type br = elim (index_from (λ s. s.0 == br.received_tstamp_tcp) br.tstamps_tcp 0) [
  | some i ↦ (
    record br {
      send_tcp_stamp_recv_index = i % 256;
      recv_type = if ltb 0 i then ReceivedType.retr else ReceivedType.received_data;
      recv_type_num = if ltb 0 i then i % 256 else br.recv_type_num;
    },
    true,
  )
  | none ↦ elim (index_from (λ t. t == br.received_tstamp_tcp) br.rdb_tstamps_tcp 0) [
    | some i ↦ (record br { recv_type = ReceivedType.rdb; recv_type_num = (i + 1) % 256 }, true)
    | none ↦ (br, false)
  ]
]

-- `addSegmentEnteredKernelTime`, less its printing. An index of -1 says that no packet was sent; the
-- others index `sent_tstamp_pcap`.
unfoldable pub add_segment_entered_kernel_time : ℕ → Timeval → ByteRange → Result (ByteRange × Bool)
add_segment_entered_kernel_time seq tv br = elim br.sent_data_pkt_pcap_index [
  | negsuc n ↦ if n == 0 then ok (br, false) else or_out_of_range none
  | pos i ↦ do
    sent ← or_out_of_range (get_elem? br.sent_tstamp_pcap i)
    ok (
        if ltb_ℤ (get_usecs sent.0) (get_usecs tv) then (br, false) else (
          record br { sojourn_time = true; sojourn_tstamps = br.sojourn_tstamps ++ (seq, tv) ∷ [] },
          true,
        ))
]

-- `calculateRecvDiff`; without a time stamp it takes the range's own.
unfoldable pub calculate_recv_diff : Option Timeval → ByteRange → Result ByteRange
calculate_recv_diff recv_tstamp br = do
  let recv = elim recv_tstamp as (λ _. Timeval) [ none ↦ br.received_tstamp_pcap | some tv ↦ tv ]
  sent ← or_out_of_range (get_elem? br.sent_tstamp_pcap br.send_tcp_stamp_recv_index)
  let tv = negtimersub recv sent.0
  let ms = tv.sec *ℤ 1000
  let part = quot_ℤ tv.usec 1000
  ok (record br { diff = if leb_ℤ (pos 0) ms then ms +ℤ part else ms -ℤ part })

-- `getTotalBytesTransfered`
pub get_total_bytes_transfered : ByteRange → ℕ
get_total_bytes_transfered br =
    br.byte_count + br.byte_count * br.data_retrans_count + br.byte_count * br.rdb_count
