-- ===== src/Range/Tests.antt =====
-- Byte ranges at concrete inputs.
use analyse_tcp.Prelude.{◌≡◌, refl, [], ◌∷◌, ◌+◌, true, false, ok, arith}
use analyse_tcp.Prelude.Int.{pos, ◌+ℤ◌, ◌*ℤ◌}
use analyse_tcp.Time.{Timeval, get_usecs}
use analyse_tcp.Range.{
  ByteRange, SentType, new_byte_range, update_byte_count, split_end, increase_sent,
  add_segment_entered_kernel_time,
}
use analyse_tcp.Range.Split.{IsRange, fresh_range, fresh_range-IsRange, split_end_conserves}
use analyse_tcp.Range.Counters.{
  IsIndexed, latest, increase_sent-IsIndexed, add_segment_entered_kernel_time_lem,
}

abbrev segment : ByteRange
segment = fresh_range 100 1548

abbrev noon : Timeval
noon = record { sec = pos 43200; usec = pos 0 }

constructed : new_byte_range 100 1548 ≡ ok segment
unfolding new_byte_range update_byte_count
constructed = refl

segment-IsRange : IsRange segment
segment-IsRange = fresh_range-IsRange 100 1548 (omega arith) (omega arith) (omega arith)

split_end_conserves_example :
    (l : ByteRange) × (r : ByteRange) × (split_end 600 1548 segment ≡ ok (l, r))
    × IsRange l
    × IsRange r
    × (l.start_seq ≡ 100)
    × (l.end_seq ≡ 600)
    × (r.start_seq ≡ 600)
    × (r.end_seq ≡ 1548)
    × (l.byte_count + r.byte_count ≡ 1448)
    × (l.data_sent_count ≡ 0)
    × (r.data_sent_count ≡ 0)
    × (l.data_retrans_count ≡ 0)
    × (r.data_retrans_count ≡ 0)
    × (l.data_received_count ≡ 0)
    × (r.data_received_count ≡ 0)
    × (l.ack_time ≡ segment.ack_time)
    × (r.ack_time ≡ segment.ack_time)
    × (l.packet_sent_count ≡ 0)
    × (r.packet_sent_count ≡ 0)
split_end_conserves_example =
    split_end_conserves 600 segment segment-IsRange (omega arith) (omega arith)

segment-IsIndexed : IsIndexed segment
unfolding latest
segment-IsIndexed = refl

increase_sent-IsIndexed_example : IsIndexed (increase_sent 5 6 noon false SentType.st_pkt segment)
increase_sent-IsIndexed_example =
    increase_sent-IsIndexed 5 6 noon false SentType.st_pkt segment (omega arith) segment-IsIndexed

abbrev sent_segment : ByteRange
sent_segment = record segment {
  sent_data_pkt_pcap_index = pos 0;
  sent_tstamp_pcap = (noon, SentType.st_pkt) ∷ [];
}

sent_segment-IsIndexed : IsIndexed sent_segment
unfolding latest
sent_segment-IsIndexed = refl

add_segment_entered_kernel_time_lem_example :
    add_segment_entered_kernel_time 1548 noon sent_segment
    ≡ ok (record sent_segment { sojourn_time = true; sojourn_tstamps = (1548, noon) ∷ [] }, true)
unfolding latest ◌+ℤ◌ ◌*ℤ◌ get_usecs
add_segment_entered_kernel_time_lem_example =
    add_segment_entered_kernel_time_lem 1548 noon sent_segment sent_segment-IsIndexed
