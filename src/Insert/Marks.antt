-- ===== src/Insert/Marks.antt =====
-- What `RangeManager::insertByteRange` writes on the byte range that a segment falls on, for each kind
-- of insertion: the counters, the flags and the time stamps.
use analyse_tcp.Prelude.{
  ℕ, Bool, true, false, not, ◌&&◌, ◌||◌, ltb, ◌==◌, if◌then◌else◌, Result, ok, assert, ◌>>=◌, ◌>>◌,
}
use analyse_tcp.Words.{add8}
use analyse_tcp.Range.{
  ByteRange, DataSeg, SentType, th_fin, th_syn, th_rst, has_flag, to_ℕ, new_byte_range,
  update_byte_count, increase_sent, increase_received, add_segment_entered_kernel_time,
}

pub data InsertType : Type 0 where
  insert_sent insert_recv insert_sojourn : InsertType

abbrev pub is_sent : InsertType → Bool
is_sent InsertType.insert_sent = true
is_sent _ = false

-- `data_seg->is_rdb && data_seg->rdb_end_seq > start_seq`
abbrev pub this_is_rdb_data : DataSeg → ℕ → Bool
this_is_rdb_data seg start_seq = seg.is_rdb && ltb start_seq seg.rdb_end_seq

-- `increase_sent` with the time stamps of the segment.
abbrev pub sent_as : DataSeg → Bool → SentType → ByteRange → ByteRange
sent_as seg as_rdb t br =
    increase_sent seg.tstamp_tcp seg.tstamp_tcp_echo seg.tstamp_pcap as_rdb t br

-- The first call of the recursion counts the packet.
abbrev pub received_at : DataSeg → ℕ → ByteRange → ByteRange
received_at seg level br =
    let br' = increase_received seg.tstamp_tcp seg.tstamp_pcap seg.in_sequence br in
    if level == 0
    then record br' { packet_received_count = add8 br'.packet_received_count 1 }
    else br'

-- A new range for a segment with no payload.
unfoldable pub new_empty_range : DataSeg → Bool → ℕ → ℕ → Result ByteRange
new_empty_range seg as_rdb start_seq end_seq = do
  br ← new_byte_range start_seq end_seq
  let syn = has_flag seg.flags th_syn
  let fin = has_flag seg.flags th_fin
  let rst = has_flag seg.flags th_rst
  let br' : ByteRange = record br {
    packet_retrans_count = add8 br.packet_retrans_count (to_ℕ seg.retrans);
    rdb_count = add8 br.rdb_count (to_ℕ seg.is_rdb);
    syn = if syn then 1 else br.syn;
    fin = if not syn && fin then 1 else br.fin;
    rst = if not syn && not fin && rst then 1 else br.rst;
  }
  ok (sent_as seg as_rdb (if syn || fin || rst then SentType.st_pkt else SentType.st_pure_ack) br')

-- A new range for sent data that no range holds. A SYN with data fails the assertion.
unfoldable pub new_sent_range : DataSeg → Bool → ℕ → ℕ → Result ByteRange
new_sent_range seg as_rdb start_seq end_seq = do
  br ← new_byte_range start_seq end_seq
  assert (not (has_flag seg.flags th_syn))
  let br' =
      sent_as seg as_rdb (if seg.is_rdb then SentType.st_none else SentType.st_pkt) (record br {
        original_payload_size = seg.payload_size;
        original_packet_is_rdb = seg.is_rdb;
      })
  ok (record br' { fin = if has_flag seg.flags th_fin then 1 else br'.fin })

-- The part of a range that was split off for the segment.
unfoldable pub mark_split : InsertType → DataSeg → Bool → ℕ → ByteRange → ByteRange
mark_split InsertType.insert_sent seg as_rdb level br =
    let br' = sent_as seg as_rdb (if level == 0 then SentType.st_rtr else SentType.st_none) br in
    record br' {
      data_retrans_count = add8 br'.data_retrans_count 1;
      rdb_count = add8 br'.rdb_count (to_ℕ seg.is_rdb);
    }
mark_split InsertType.insert_recv seg as_rdb level br = received_at seg level br
mark_split InsertType.insert_sojourn seg as_rdb level br = br

-- A range that the segment starts with, sent again.
unfoldable pub mark_sent_again : DataSeg → Bool → ℕ → ByteRange → ByteRange
mark_sent_again seg as_rdb level br =
    let top = level == 0 in
    let t : SentType =
      if top
      then (if seg.retrans then SentType.st_rtr else SentType.st_pkt)
      else SentType.st_none in
    let br' = sent_as seg as_rdb t br in
    record br' {
      fin = if top && has_flag seg.flags th_fin then add8 br'.fin 1 else br'.fin;
      data_retrans_count = add8 br'.data_retrans_count (to_ℕ seg.retrans);
      rdb_count = add8 br'.rdb_count (to_ℕ seg.is_rdb);
    }

-- The type under which a segment with no payload counts on a range that is there.
abbrev empty_type : DataSeg → SentType
empty_type seg =
    if has_flag seg.flags th_syn || has_flag seg.flags th_fin
    then SentType.st_rtr
    else if has_flag seg.flags th_rst
    then SentType.st_rst
    else SentType.st_pure_ack

-- A segment with no payload on a range that is there.
unfoldable pub mark_empty : InsertType → DataSeg → Bool → ℕ → ByteRange → ByteRange
mark_empty InsertType.insert_sent seg as_rdb level br =
    let syn = has_flag seg.flags th_syn in
    let fin = has_flag seg.flags th_fin in
    let rst = has_flag seg.flags th_rst in
    sent_as seg as_rdb (empty_type seg) (record br {
      syn = add8 br.syn (to_ℕ syn);
      fin = add8 br.fin (to_ℕ fin);
      rst = if syn || fin then br.rst else add8 br.rst (to_ℕ rst);
    })
mark_empty InsertType.insert_recv seg as_rdb level br =
    let br' : ByteRange =
      if has_flag seg.flags th_syn || has_flag seg.flags th_fin
      then increase_received seg.tstamp_tcp seg.tstamp_pcap seg.in_sequence br
      else br in
    if level == 0
    then record br' { packet_received_count = add8 br'.packet_received_count 1 }
    else br'
mark_empty InsertType.insert_sojourn seg as_rdb level br = br

-- A segment that is the range exactly.
unfoldable pub mark_same : InsertType → DataSeg → Bool → ℕ → ℕ → ByteRange → Result ByteRange
unfolding mark_sent_again
mark_same InsertType.insert_sent seg as_rdb level end_seq br =
    let br' = mark_sent_again seg as_rdb level br in
    ok (record br' { syn = add8 br'.syn (to_ℕ (has_flag seg.flags th_syn)) })
mark_same InsertType.insert_recv seg as_rdb level end_seq br = ok (received_at seg level br)
mark_same InsertType.insert_sojourn seg as_rdb level end_seq br = do
  r ← add_segment_entered_kernel_time end_seq seg.tstamp_pcap br
  ok r.0

-- A range of pure acks that gets data up to `end_seq`; its payload size too if `whole`.
unfoldable pub fill_range : DataSeg → Bool → Bool → ℕ → ByteRange → Result ByteRange
fill_range seg as_rdb whole end_seq br = do
  br' ← update_byte_count (record br { end_seq = end_seq })
  ok (
      sent_as seg as_rdb SentType.st_pkt (record br' {
        original_payload_size = if whole then br'.byte_count else br'.original_payload_size;
      }))
