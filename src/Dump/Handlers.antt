-- ===== src/Dump/Handlers.antt =====
-- `Dump::processSent`, `Dump::processAcks` and `Dump::processRecvd` of Dump.cc on packets whose headers are
-- parsed, less what they print. The options for throughput, for GET requests and for NAT are off.
use analyse_tcp.Prelude.{
  ℕ, ◌+◌, ◌*◌, ◌%◌, false, not, ◌&&◌, leb, ◌==◌, if◌then◌else◌, max, Option, none, some, List, [],
  Result, ok, err, Fault, assert, ◌>>=◌, ◌>>◌,
}
use analyse_tcp.Words.{add64, sub32, u16_mod, invalid_seq}
use analyse_tcp.Time.{Timeval, zero_time, timeval_eq}
use analyse_tcp.Range.{DataSeg, has_flag, th_syn}
use analyse_tcp.Conn.{
  Connection, RelativeSeqType, relative_sequence_number, register_sent, register_range,
  register_recvd, register_ack,
}
use analyse_tcp.Dump.Options.{parse_tcp_options}
use analyse_tcp.Dump.Table.{ConnectionMapKey, ConnectionTable, lookup, store, get_conn}

-- A captured packet: the fields of `pcap_pkthdr`, of `sniff_ip` and of `sniff_tcp` in the order of the
-- host (the ports and addresses as they stand), and the bytes behind the 20 bytes of the TCP header.
pub record Packet : Type 0 where
  pub len : ℕ
  pub ts : Timeval
  pub ip_src : ℕ
  pub ip_dst : ℕ
  pub ip_len : ℕ
  pub ip_hl : ℕ
  pub th_sport : ℕ
  pub th_dport : ℕ
  pub th_seq : ℕ
  pub th_ack : ℕ
  pub th_off : ℕ
  pub th_flags : ℕ
  pub th_win : ℕ
  pub behind : List ℕ

pub record Dump : Type 0 where
  pub first_sent_time : Timeval
  pub sent_packet_count : ℕ
  pub recv_packet_count : ℕ
  pub sent_bytes_count : ℕ
  pub recv_bytes_count : ℕ
  pub ack_count : ℕ
  pub max_payload_size : ℕ
  pub conns : ConnectionTable

-- The key of the packet's connection, and that of the connection whose data it acknowledges.
abbrev pub sent_key : Packet → ConnectionMapKey
sent_key p = record {
  ip_src = p.ip_src;
  ip_dst = p.ip_dst;
  src_port = p.th_sport;
  dst_port = p.th_dport;
}

abbrev pub acked_key : Packet → ConnectionMapKey
acked_key p = record {
  ip_src = p.ip_dst;
  ip_dst = p.ip_src;
  src_port = p.th_dport;
  dst_port = p.th_sport;
}

-- The size of the payload, as a `uint16_t`.
abbrev pub payload_of : ℕ → Packet → ℕ
payload_of link p = sub32 p.len (p.ip_hl * 4 + p.th_off * 4 + link) % u16_mod

-- A DataSeg that is all 0.
abbrev pub empty_segment : DataSeg
empty_segment = record {
  seq = 0;
  end_seq = 0;
  rdb_end_seq = 0;
  seq_absolute = 0;
  ack = 0;
  window = 0;
  payload_size = 0;
  retrans = false;
  is_rdb = false;
  sacks = false;
  in_sequence = false;
  tstamp_pcap = zero_time;
  tstamp_tcp = 0;
  tstamp_tcp_echo = 0;
  tcp_sacks = [];
  flags = 0;
}

-- The segment of a packet with data, whose relative sequence number is `seq`.
abbrev pub data_segment : ℕ → ℕ → ℕ → Packet → DataSeg
data_segment seq window link p = record empty_segment {
  seq = seq;
  end_seq = add64 seq (payload_of link p);
  seq_absolute = p.th_seq;
  window = window;
  payload_size = payload_of link p;
  tstamp_pcap = p.ts;
  flags = p.th_flags;
}

-- `tcpHdrLen - 20`
abbrev pub option_length : Packet → ℕ
option_length p = sub32 (p.th_off * 4) 20

-- The connection as a handler leaves it, in the table; `none` if the packet was dropped.
abbrev pub settle : ConnectionMapKey → (Dump → Dump) → Option Connection → Dump → Dump
settle key count none d = d
settle key count (some c) d = record (count d) { conns = store key c d.conns }

-- What `processSent` does with the packet's connection; a packet with an invalid sequence number is
-- dropped.
unfoldable pub sent_connection : ℕ → Packet → Connection → Result (Option Connection)
sent_connection link p c = do
  seq ← relative_sequence_number p.th_seq RelativeSeqType.relseq_send_out c
  assert (leb (option_length p) 40)
  if seq == invalid_seq then ok none else (do
    seg ←
        parse_tcp_options p.behind (option_length p) c RelativeSeqType.relseq_none
          (data_segment seq 0 link p)
    let r =
        register_sent
          (record {
            total_size = p.len;
            ip_size = p.ip_len;
            ip_hdr_len = p.ip_hl * 4;
            tcp_hdr_len = p.th_off * 4;
            tcp_option_len = option_length p;
            segment = seg;
          })
          c
    if r.2 then (do c' ← register_range r.1 r.0; ok (some c')) else ok (some r.0))

-- Its counts.
unfoldable pub count_sent : ℕ → Packet → Dump → Dump
count_sent link p d = record d {
  first_sent_time = if timeval_eq d.first_sent_time zero_time then p.ts else d.first_sent_time;
  sent_packet_count = d.sent_packet_count + 1;
  sent_bytes_count = add64 d.sent_bytes_count (payload_of link p);
  max_payload_size = max d.max_payload_size (payload_of link p);
}

-- `processSent`; `link` is the size of the link layer's header.
unfoldable pub process_sent : ℕ → Packet → Dump → Result Dump
process_sent link p d =
    let found = get_conn (sent_key p) (some p.th_seq) d.conns in
    elim found.1 as (λ _. Result Dump) [
      | none ↦ err Fault.out_of_range
      | some c ↦ do
        r ← sent_connection link p c
        ok (settle (sent_key p) (count_sent link p) r (record d { conns = found.0 }))
    ]

-- What `processAcks` does with the connection.
unfoldable pub ack_connection : Packet → Connection → Result (Option Connection)
ack_connection p c = do
  ack ← relative_sequence_number p.th_ack RelativeSeqType.relseq_send_ack c
  if ack == invalid_seq then ok none else (do
    seg ←
        parse_tcp_options p.behind (option_length p) c RelativeSeqType.relseq_send_ack
          (record empty_segment {
            ack = ack;
            tstamp_pcap = p.ts;
            window = p.th_win;
            flags = p.th_flags;
          })
    r ← register_ack seg c
    ok (
        some (
          if r.1
          then record r.0 {
            last_largest_ack_seq_absolute = p.th_ack;
            last_largest_ack_seq = seg.ack;
          }
          else r.0)))

-- `processAcks`
unfoldable pub process_acks : Packet → Dump → Result Dump
process_acks p d = elim (lookup (acked_key p) d.conns) as (λ _. Result Dump) [
  | none ↦ ok d
  | some c ↦ do
    r ← ack_connection p c
    ok (settle (acked_key p) (λ e. record e { ack_count = e.ack_count + 1 }) r d)
]

-- What `processRecvd` does with the connection. An old SYN, before any data, is dropped.
unfoldable pub recvd_connection : ℕ → Packet → Connection → Result (Option Connection)
recvd_connection link p c =
    if c.last_largest_recv_end_seq == 0
      && not (p.th_seq == c.rm.first_seq)
      && has_flag p.th_flags th_syn
    then ok none
    else (do
      seq ← relative_sequence_number p.th_seq RelativeSeqType.relseq_recv_inn c
      if seq == invalid_seq then ok none else (do
        seg ←
            parse_tcp_options p.behind (option_length p) c RelativeSeqType.relseq_none
              (data_segment seq p.th_win link p)
        c' ← register_recvd seg c
        ok (some c')))

-- `processRecvd`
unfoldable pub process_recvd : ℕ → Packet → Dump → Result Dump
process_recvd link p d = elim (lookup (sent_key p) d.conns) as (λ _. Result Dump) [
  | none ↦ ok d
  | some c ↦ do
    r ← recvd_connection link p c
    let count : Dump → Dump = λ e. record e {
      recv_packet_count = e.recv_packet_count + 1;
      recv_bytes_count = add64 e.recv_bytes_count (payload_of link p);
    }
    ok (settle (sent_key p) count r d)
]
