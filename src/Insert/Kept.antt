-- ===== src/Insert/Kept.antt =====
-- What insertByteRange writes on a byte range leaves its place in the stream alone.
use analyse_tcp.Prelude.{ℕ, ◌+◌, ◌≤◌, ◌<◌, ◌≡◌, refl, Bool, ok, arith, >>=-eq-ok}
use analyse_tcp.Words.{u64_mod}
use analyse_tcp.Time.{Timeval}
use analyse_tcp.Range.{
  ByteRange, DataSeg, increase_sent, increase_received, add_segment_entered_kernel_time,
}
use analyse_tcp.Range.Split.{IsRange, new_byte_range_lem, update_byte_count_lem}
use analyse_tcp.Insert.Marks.{
  InsertType, received_at, mark_split, mark_sent_again, mark_empty, mark_same, fill_range,
  new_sent_range, new_empty_range,
}

-- The same start, end and byte count.
abbrev pub SamePlace : ByteRange → ByteRange → Type 0
SamePlace br br' =
    (br'.start_seq ≡ br.start_seq) × (br'.end_seq ≡ br.end_seq) × (br'.byte_count ≡ br.byte_count)

pub SamePlace-IsRange : (br br' : ByteRange) → SamePlace br br' → IsRange br → IsRange br'
SamePlace-IsRange br br' (s, e, c) r = omega arith

pub received_at-SamePlace :
    (seg : DataSeg) (level : ℕ) (br : ByteRange) → SamePlace br (received_at seg level br)
unfolding increase_received
received_at-SamePlace seg level br = ground arith

pub mark_split-SamePlace :
    (t : InsertType) (seg : DataSeg) (r : Bool) (level : ℕ) (br : ByteRange)
    → SamePlace br (mark_split t seg r level br)
unfolding mark_split increase_sent
mark_split-SamePlace InsertType.insert_sent seg r level br = (refl, refl, refl)
mark_split-SamePlace InsertType.insert_recv seg r level br = received_at-SamePlace seg level br
mark_split-SamePlace InsertType.insert_sojourn seg r level br = (refl, refl, refl)

pub mark_sent_again-SamePlace :
    (seg : DataSeg) (r : Bool) (level : ℕ) (br : ByteRange)
    → SamePlace br (mark_sent_again seg r level br)
unfolding mark_sent_again increase_sent
mark_sent_again-SamePlace seg r level br = (refl, refl, refl)

pub mark_empty-SamePlace :
    (t : InsertType) (seg : DataSeg) (r : Bool) (level : ℕ) (br : ByteRange)
    → SamePlace br (mark_empty t seg r level br)
unfolding mark_empty increase_sent increase_received
mark_empty-SamePlace InsertType.insert_sent seg r level br = (refl, refl, refl)
mark_empty-SamePlace InsertType.insert_recv seg r level br = ground arith
mark_empty-SamePlace InsertType.insert_sojourn seg r level br = (refl, refl, refl)

pub sojourn-SamePlace :
    (seq : ℕ) (tv : Timeval) (br : ByteRange) (r : ByteRange × Bool)
    → add_segment_entered_kernel_time seq tv br ≡ ok r
    → SamePlace br r.0
unfolding add_segment_entered_kernel_time
sojourn-SamePlace seq tv br r e = ground arith

pub mark_same-SamePlace :
    (t : InsertType) (seg : DataSeg) (r : Bool) (level end : ℕ) (br br' : ByteRange)
    → mark_same t seg r level end br ≡ ok br'
    → SamePlace br br'
unfolding mark_same mark_sent_again increase_sent
mark_same-SamePlace InsertType.insert_sent seg r level end br br' e = ground arith
mark_same-SamePlace InsertType.insert_recv seg r level end br br' e =
    ground (arith, received_at-SamePlace seg level br)
mark_same-SamePlace InsertType.insert_sojourn seg r level end br br' e =
    let (s, stamped, same) =
      >>=-eq-ok (add_segment_entered_kernel_time end seg.tstamp_pcap br) (λ s. ok s.0) e in
    ground (arith, sojourn-SamePlace end seg.tstamp_pcap br s stamped)

-- A range that is filled up to `end` keeps its start and ends there.
pub fill_range_lem :
    (seg : DataSeg) (r whole : Bool) (end : ℕ) (br br' : ByteRange)
    → br.start_seq ≤ end
    → end < br.start_seq + 65535
    → end < u64_mod
    → fill_range seg r whole end br ≡ ok br'
    → (br'.start_seq ≡ br.start_seq) × (br'.end_seq ≡ end) × IsRange br'
unfolding fill_range increase_sent
fill_range_lem seg r whole end br br' le short word e =
    ground (arith, update_byte_count_lem (record br { end_seq = end }) le short word)

pub new_sent_range_lem :
    (seg : DataSeg) (r : Bool) (start end : ℕ) (br : ByteRange)
    → start ≤ end
    → end < start + 65535
    → end < u64_mod
    → new_sent_range seg r start end ≡ ok br
    → (br.start_seq ≡ start) × (br.end_seq ≡ end) × IsRange br
unfolding new_sent_range increase_sent
new_sent_range_lem seg r start end br le short word e =
    ground (arith, new_byte_range_lem start end le short word)

pub new_empty_range_lem :
    (seg : DataSeg) (r : Bool) (start : ℕ) (br : ByteRange)
    → start < u64_mod
    → new_empty_range seg r start start ≡ ok br
    → (br.start_seq ≡ start) × (br.end_seq ≡ start) × IsRange br
unfolding new_empty_range increase_sent
new_empty_range_lem seg r start br word e =
    ground (arith, new_byte_range_lem start start (omega arith) (omega arith) word)
