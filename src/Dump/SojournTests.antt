-- ===== src/Dump/SojournTests.antt =====
-- Runs of calculateSojournTime.
use analyse_tcp.Prelude.{◌≡◌, refl, true, some, none, List, [], ◌∷◌, arith, ok, err, Fault}
use analyse_tcp.Prelude.Int.{pos, ◌+ℤ◌, ◌*ℤ◌}
use analyse_tcp.Time.{Timeval, get_usecs, zero_time}
use analyse_tcp.Seq.{get_relative_sequence_number, after_or_equal, relative_of_wrap_index}
use analyse_tcp.Range.{ByteRange, SentType, add_segment_entered_kernel_time}
use analyse_tcp.Range.Split.{IsRange, fresh_range}
use analyse_tcp.RangeMap.{RangeMap, find, set}
use analyse_tcp.Insert.{insert_byte_range}
use analyse_tcp.Insert.Marks.{mark_same}
use analyse_tcp.Insert.Steps.{insert_step, insert_found}
use analyse_tcp.Conn.{Connection, new_connection, RelativeSeqType, relative_sequence_number}
use analyse_tcp.Dump.Table.{ConnectionMapKey, lookup, store, key_before}
use analyse_tcp.Dump.Handlers.{Dump}
use analyse_tcp.Dump.Sojourn.{
  SojournLine, sojourn_segment, sojourn_connection, sojourn_line, calculate_sojourn_time,
}
use analyse_tcp.Dump.SojournNumbers.{relative_sequence_number-sojourn_number}
use analyse_tcp.Dump.SojournKept.{TimedAt, calculate_sojourn_time-TimedAt}

-- Fifteen bytes behind the first number, on either side of 2^31.
relative_sequence_number-sojourn_number_example :
    relative_sequence_number 2147483653 RelativeSeqType.relseq_soj_seq (new_connection 2147483638)
    ≡ err Fault.assertion
relative_sequence_number-sojourn_number_example =
    relative_sequence_number-sojourn_number 2147483653 (new_connection 2147483638) (omega arith)
      (omega arith) refl refl

abbrev sojourn_key : ConnectionMapKey
sojourn_key = record { ip_src = 1; ip_dst = 2; src_port = 5000; dst_port = 80 }

-- Ten bytes, sent once; and the time in the kernel before that.
abbrev sent_once : ByteRange
sent_once = record (fresh_range 1 11) {
  sent_data_pkt_pcap_index = pos 0;
  sent_tstamp_pcap = (record { sec = pos 193316; usec = pos 0 }, SentType.st_pkt) ∷ [];
}

sent_once-IsRange : IsRange sent_once
sent_once-IsRange = omega arith

abbrev in_kernel : Timeval
in_kernel = record { sec = pos 193315; usec = pos 745873 }

abbrev ten_bytes : RangeMap
ten_bytes = (1, sent_once) ∷ []

abbrev ten_bytes_sent : Connection
ten_bytes_sent = record (new_connection 1000) {
  rm = record (new_connection 1000).rm { ranges = ten_bytes; last_seq = 11 };
}

abbrev sojourn_dump : Dump
sojourn_dump = record {
  first_sent_time = zero_time;
  sent_packet_count = 1;
  recv_packet_count = 0;
  sent_bytes_count = 10;
  recv_bytes_count = 0;
  ack_count = 0;
  max_payload_size = 10;
  conns = (sojourn_key, ten_bytes_sent) ∷ [];
}

-- A line of the connection, and one that cannot be read.
abbrev two_lines : List SojournLine
two_lines =
    record {
      key = some sojourn_key;
      k_sec = 193315;
      k_nsec = 745873965;
      size = 10;
      seq = 1001;
      seq2 = 1001;
    }
    ∷ record { key = none; k_sec = 193315; k_nsec = 745873965; size = 10; seq = 1001; seq2 = 1001 }
    ∷ []

-- The time in the kernel is added to the range.
abbrev after_lines : Dump
after_lines = record sojourn_dump {
  conns =
      (
        sojourn_key,
        record ten_bytes_sent {
          rm = record ten_bytes_sent.rm {
            ranges =
                (
                  1,
                  record sent_once { sojourn_time = true; sojourn_tstamps = (11, in_kernel) ∷ [] },
                )
                ∷ [];
          };
        },
      )
      ∷ [];
}

two_lines_read : calculate_sojourn_time two_lines sojourn_dump ≡ ok after_lines
unfolding calculate_sojourn_time sojourn_line lookup key_before sojourn_connection sojourn_segment
    relative_sequence_number get_relative_sequence_number after_or_equal relative_of_wrap_index
    insert_byte_range insert_step find insert_found mark_same add_segment_entered_kernel_time store
    set get_usecs ◌+ℤ◌ ◌*ℤ◌
two_lines_read = refl

sojourn_dump-TimedAt : TimedAt sojourn_key ten_bytes sojourn_dump
unfolding lookup key_before
sojourn_dump-TimedAt = record {
  connection = ten_bytes_sent;
  found = refl;
  timed = record {
    in_order = (omega arith, refl, sent_once-IsRange, tt);
    same_bytes = λ x. refl;
    first_word = omega arith;
    no_end = refl;
    no_absolute = refl;
  };
}

calculate_sojourn_time-TimedAt_example : TimedAt sojourn_key ten_bytes after_lines
calculate_sojourn_time-TimedAt_example =
    calculate_sojourn_time-TimedAt sojourn_key ten_bytes two_lines sojourn_dump after_lines
      sojourn_dump-TimedAt ((omega arith, omega arith), ((omega arith, omega arith), tt))
      two_lines_read
