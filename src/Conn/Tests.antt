-- ===== src/Conn/Tests.antt =====
-- Runs of a connection.
use analyse_tcp.Prelude.{◌≡◌, inl, refl, true, false, [], ◌∷◌, arith}
use analyse_tcp.Time.{zero_time}
use analyse_tcp.Range.{DataSeg, has_flag}
use analyse_tcp.Range.Split.{fresh_range, fresh_range-IsRange}
use analyse_tcp.RangeMap.Cover.{covers}
use analyse_tcp.RangeMap.Pieces.{top}
use analyse_tcp.Manager.{new_range_manager}
use analyse_tcp.Manager.Stream.{IsSegment, Follows}
use analyse_tcp.Conn.{Connection, SendData, new_connection, register_payload, register_sent}
use analyse_tcp.Conn.Accounts.{Sound, register_sent-Sound}
use analyse_tcp.Conn.InStep.{InStep, InStepUpTo, segments, send_all, send_all-InStep}
use analyse_tcp.Conn.Classes.{IsFresh, Marked, register_payload-classes}

-- 100 bytes of new data behind 50 bytes that were sent before.
abbrev bundle : DataSeg
bundle = record {
  seq = 51;
  end_seq = 201;
  rdb_end_seq = 0;
  seq_absolute = 1051;
  ack = 0;
  window = 0;
  payload_size = 150;
  retrans = false;
  is_rdb = false;
  sacks = false;
  in_sequence = false;
  tstamp_pcap = zero_time;
  tstamp_tcp = 1;
  tstamp_tcp_echo = 1;
  tcp_sacks = [];
  flags = 0x10;
}

abbrev packet : SendData
packet = record {
  total_size = 216;
  ip_size = 202;
  ip_hdr_len = 20;
  tcp_hdr_len = 32;
  tcp_option_len = 12;
  segment = bundle;
}

-- One packet of 100 bytes was sent.
abbrev connection : Connection
connection = record (new_connection 1000) {
  nr_packets_sent = 1;
  nr_data_packets_sent = 1;
  tot_bytes_sent = 100;
  tot_new_data_sent = 100;
  last_largest_start_seq = 1;
  last_largest_end_seq = 101;
  last_largest_seq_absolute = 1101;
}

new_part : (register_payload bundle connection).0.tot_new_data_sent ≡ 200
unfolding register_payload
new_part = refl

register_sent-Sound_example : Sound (register_sent packet connection).0
register_sent-Sound_example =
    register_sent-Sound packet connection (refl, omega arith)
      (record { balanced = refl; word = omega arith })

bundle-IsFresh : IsFresh bundle
bundle-IsFresh = record {
  has_data = omega arith;
  spans = refl;
  word = omega arith;
  first = refl;
  alone = refl;
}

connection-Marked : Marked connection
connection-Marked = (inl (omega arith), omega arith)

register_payload-classes_example :
    let r = register_payload bundle connection in
    (r.1.retrans ≡ false)
    × (r.1.is_rdb ≡ true)
    × (r.1.rdb_end_seq ≡ 101)
    × (r.0.tot_new_data_sent ≡ 200)
    × (r.0.tot_rdb_bytes_sent ≡ 50)
    × (r.0.tot_retrans_bytes_sent ≡ 0)
    × (r.0.last_largest_end_seq ≡ 201)
    × (r.0.last_largest_start_seq ≡ 51)
    × Marked r.0
register_payload-classes_example =
    register_payload-classes bundle connection bundle-IsFresh connection-Marked

-- The same connection, with the range of the bytes that were sent.
abbrev sender : Connection
sender = record connection {
  rm = record (new_range_manager 1000) { ranges = (1, fresh_range 1 101) ∷ []; last_seq = 101 };
}

sender-InStep : InStep 1 sender
unfolding covers top
sender-InStep = record {
  holds = record {
    in_order = (
      omega arith,
      refl,
      fresh_range-IsRange 1 101 (omega arith) (omega arith) (omega arith),
      tt,
    );
    exact = λ x. ground arith;
    ends = omega arith;
    starts = omega arith;
  };
  same_end = refl;
  not_closed = refl;
}

-- The first packet again.
abbrev again : SendData
again = record packet { segment = record bundle { seq = 1; end_seq = 101; payload_size = 100 } }

bundle-IsSegment : IsSegment bundle
unfolding has_flag
bundle-IsSegment = record {
  has_data = omega arith;
  short = omega arith;
  no_syn = refl;
  spans = refl;
  word = omega arith;
}

again-IsSegment : IsSegment again.segment
unfolding has_flag
again-IsSegment = record {
  has_data = omega arith;
  short = omega arith;
  no_syn = refl;
  spans = refl;
  word = omega arith;
}

two_packets-Follows : Follows 1 101 (segments (packet ∷ again ∷ []))
two_packets-Follows =
    (bundle-IsSegment, omega arith, omega arith, (again-IsSegment, omega arith, omega arith, tt))

send_all-InStep_example : InStepUpTo 1 201 (send_all (packet ∷ again ∷ []) sender)
send_all-InStep_example =
    send_all-InStep 1 (packet ∷ again ∷ []) sender sender-InStep two_packets-Follows
