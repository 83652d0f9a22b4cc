-- ===== src/Range/Split.antt =====
-- Construction and splitting of byte ranges: `ByteRange`, `updateByteCount`, `split` and `splitEnd` of
-- ByteRange.h never fail on well-formed ranges, and lose neither bytes nor counts of data.
use analyse_tcp.Prelude.{ℕ, ◌+◌, ◌-◌, ◌%◌, ◌≤◌, ◌<◌, ◌≡◌, refl, true, map, ltb, ok, arith, lt→ltb}
use analyse_tcp.Words.{u16_mod, u64_mod, sub64}
use analyse_tcp.Range.{
  ByteRange, SentType, blank, update_byte_count, new_byte_range, split, split_end,
}

-- A range of the stream whose byte count is its length, which `updateByteCount` accepts.
pub record IsRange (br : ByteRange) : Type 0 where
  pub ordered : br.start_seq ≤ br.end_seq
  pub short : br.end_seq < br.start_seq + 65535
  pub word : br.end_seq < u64_mod
  pub counted : br.start_seq + br.byte_count ≡ br.end_seq

pub update_byte_count_lem :
    (br : ByteRange)
    → br.start_seq ≤ br.end_seq
    → br.end_seq < br.start_seq + 65535
    → br.end_seq < u64_mod
    → update_byte_count br ≡ ok (record br { byte_count = br.end_seq - br.start_seq })
unfolding update_byte_count
update_byte_count_lem br le short word =
    let size : sub64 br.end_seq br.start_seq ≡ br.end_seq - br.start_seq = omega arith in
    let fits : ltb (br.end_seq - br.start_seq) 65535 ≡ true = lt→ltb _ _ (omega arith) in
    let small : (br.end_seq - br.start_seq) % u16_mod ≡ br.end_seq - br.start_seq = omega arith in
    rw (size, fits, small)

-- A new range from `start` to `end`.
abbrev pub fresh_range : ℕ → ℕ → ByteRange
fresh_range start end = record (blank start end) {
  byte_count = end - start;
  original_payload_size = end - start;
}

pub new_byte_range_lem :
    (start end : ℕ)
    → start ≤ end
    → end < start + 65535
    → end < u64_mod
    → new_byte_range start end ≡ ok (fresh_range start end)
unfolding new_byte_range
new_byte_range_lem start end le short word =
    rw (update_byte_count_lem (blank start end) le short word)

-- The two parts of a range that is split at `at`.
abbrev pub left_part : ℕ → ByteRange → ByteRange
left_part at br = record br { end_seq = at; byte_count = at - br.start_seq }

abbrev pub right_part : ℕ → ByteRange → ByteRange
right_part at br = record (fresh_range at br.end_seq) {
  data_retrans_count = br.data_retrans_count;
  data_sent_count = br.data_sent_count;
  data_received_count = br.data_received_count;
  received_tstamp_tcp = br.received_tstamp_tcp;
  tstamps_tcp = br.tstamps_tcp;
  rdb_tstamps_tcp = br.rdb_tstamps_tcp;
  ack_time = br.ack_time;
  acked = br.acked;
  sent_tstamp_pcap = map (λ s. (s.0, SentType.st_none)) br.sent_tstamp_pcap;
}

pub split_end_lem :
    (at : ℕ) (br : ByteRange)
    → IsRange br
    → br.start_seq ≤ at
    → at ≤ br.end_seq
    → split_end at br.end_seq br ≡ ok (left_part at br, right_part at br)
unfolding split_end split
split_end_lem at br v lo hi = rw (
  new_byte_range_lem at br.end_seq hi (omega arith) (omega arith),
  update_byte_count_lem (record br { end_seq = at }) lo (omega arith) (omega arith),
)

pub left_part-IsRange :
    (at : ℕ) (br : ByteRange)
    → IsRange br
    → br.start_seq ≤ at
    → at ≤ br.end_seq
    → IsRange (left_part at br)
left_part-IsRange at br v lo hi = omega arith

pub right_part-IsRange :
    (at : ℕ) (br : ByteRange)
    → IsRange br
    → br.start_seq ≤ at
    → at ≤ br.end_seq
    → IsRange (right_part at br)
right_part-IsRange at br v lo hi = omega arith

pub fresh_range-IsRange :
    (start end : ℕ)
    → start ≤ end
    → end < start + 65535
    → end < u64_mod
    → IsRange (fresh_range start end)
fresh_range-IsRange start end le short word = omega arith

-- Splitting a well-formed range at a point inside it always succeeds. The two parts are well formed,
-- the first ends where the second starts, together they span the range, and their byte counts add up
-- to the range's. Both have the range's counts of data sent, retransmitted and received and its ack
-- time; the packets sent stay counted in the first part alone.
pub split_end_conserves :
    (at : ℕ) (br : ByteRange)
    → IsRange br
    → br.start_seq ≤ at
    → at ≤ br.end_seq
    → (l : ByteRange) × (r : ByteRange) × (split_end at br.end_seq br ≡ ok (l, r))
      × IsRange l
      × IsRange r
      × (l.start_seq ≡ br.start_seq)
      × (l.end_seq ≡ at)
      × (r.start_seq ≡ at)
      × (r.end_seq ≡ br.end_seq)
      × (l.byte_count + r.byte_count ≡ br.byte_count)
      × (l.data_sent_count ≡ br.data_sent_count)
      × (r.data_sent_count ≡ br.data_sent_count)
      × (l.data_retrans_count ≡ br.data_retrans_count)
      × (r.data_retrans_count ≡ br.data_retrans_count)
      × (l.data_received_count ≡ br.data_received_count)
      × (r.data_received_count ≡ br.data_received_count)
      × (l.ack_time ≡ br.ack_time)
      × (r.ack_time ≡ br.ack_time)
      × (l.packet_sent_count ≡ br.packet_sent_count)
      × (r.packet_sent_count ≡ 0)
split_end_conserves at br v lo hi = (
  left_part at br,
  right_part at br,
  split_end_lem at br v lo hi,
  left_part-IsRange at br v lo hi,
  right_part-IsRange at br v lo hi,
  refl,
  refl,
  refl,
  refl,
  omega arith,
  refl,
  refl,
  refl,
  refl,
  refl,
  refl,
  refl,
  refl,
  refl,
  refl,
)
