-- ===== src/Insert/Steps.antt =====
-- The branches of `RangeManager::insertByteRange`, each as one step on the range map.
use analyse_tcp.Prelude.{
  ℕ, min, Bool, true, false, not, ◌&&◌, ltb, ◌==◌, if◌then◌else◌, none, some, Result, ok, err,
  Fault, assert, ◌>>=◌, ◌>>◌,
}
use analyse_tcp.Words.{add8, add32, add64, sub64}
use analyse_tcp.Range.{
  ByteRange, DataSeg, th_fin, th_syn, th_rst, has_flag, split_end, add_segment_entered_kernel_time,
}
use analyse_tcp.RangeMap.{
  RangeMap, find, insert, set, next, from_before, up_to, containing, is_empty,
}
use analyse_tcp.Insert.Marks.{
  InsertType, is_sent, this_is_rdb_data, received_at, new_empty_range, new_sent_range, mark_split,
  mark_sent_again, mark_empty, mark_same, fill_range,
}

pub data Outcome : Type 0 where
  -- The insertion is over and returns this.
  finished : RangeMap → Bool → Outcome
  -- The bytes from this one on remain to be inserted.
  more : RangeMap → ℕ → Outcome

-- A pure ack takes the range at the byte before it, if there is one.
unfoldable pub ack_start : DataSeg → ℕ → RangeMap → ℕ
ack_start seg start_seq m =
    if not (has_flag seg.flags th_syn)
      && not (has_flag seg.flags th_fin)
      && not (has_flag seg.flags th_rst)
    then (elim (find (sub64 start_seq 1) m) [ none ↦ start_seq | some br ↦ sub64 start_seq 1 ])
    else start_seq

-- The segment has no payload.
unfoldable pub insert_empty : InsertType → DataSeg → ℕ → ℕ → RangeMap → Result Outcome
insert_empty itype seg level start_seq m =
    let as_rdb = this_is_rdb_data seg start_seq in
    let at = ack_start seg start_seq m in
    elim (find at m) [
      | some br ↦ ok (finished (set at (mark_empty itype seg as_rdb level br) m) true)
      | none ↦ do br ← new_empty_range seg as_rdb at at; ok (finished (insert at br m) true)
    ]

-- The time stamp of a segment that starts inside the range at `key`, which is not split.
unfoldable pub sojourn_inside : DataSeg → ℕ → ℕ → ℕ → ByteRange → RangeMap → Result Outcome
sojourn_inside seg start_seq end_seq key br m =
    if br.start_seq == start_seq
    then err Fault.assertion
    else if end_seq == br.end_seq
    then (do
      r ← add_segment_entered_kernel_time seg.end_seq seg.tstamp_pcap br
      ok (finished (set key r.0 m) true))
    else if ltb end_seq br.end_seq
    then (do
      r ← add_segment_entered_kernel_time end_seq seg.tstamp_pcap br
      ok (finished (set key r.0 m) true))
    else ok (more m br.end_seq)

-- The range at `key` starts with the segment: the part behind it is split off.
unfoldable pub split_at_start :
    InsertType → DataSeg → ℕ → ℕ → ℕ → ℕ → ByteRange → RangeMap → Result Outcome
split_at_start itype seg level start_seq end_seq key br m = do
  r ← split_end end_seq br.end_seq br
  let cur = r.0
  let fin = has_flag seg.flags th_fin
  let cur' : ByteRange = record cur { fin = if fin then add8 cur.fin 1 else cur.fin }
  let marked = mark_split itype seg (this_is_rdb_data seg start_seq) level cur'
  ok (finished (insert r.1.start_seq r.1 (set key marked m)) true)

-- The segment ends with the range that it starts inside of.
unfoldable pub split_off_end :
    InsertType → DataSeg → ℕ → ℕ → ℕ → ByteRange → RangeMap → Result Outcome
split_off_end itype seg level start_seq key br m = do
  r ← split_end start_seq br.end_seq br
  let new_br = r.1
  let fin = has_flag seg.flags th_fin
  let new_br' : ByteRange = record new_br { fin = if fin then 1 else new_br.fin }
  let marked = mark_split itype seg (this_is_rdb_data seg start_seq) level new_br'
  ok (finished (insert start_seq marked (set key r.0 m)) true)

-- The segment ends inside the range: two splits.
unfoldable pub split_middle :
    InsertType → DataSeg → ℕ → ℕ → ℕ → ℕ → ByteRange → RangeMap → Result Outcome
split_middle itype seg level start_seq end_seq key br m = do
  r ← split_end start_seq br.end_seq br
  let new_br = r.1
  let fin = has_flag seg.flags th_fin
  let new_br' : ByteRange = record new_br { fin = if fin then 1 else new_br.fin }
  s ← split_end end_seq new_br'.end_seq new_br'
  let marked = mark_split itype seg (this_is_rdb_data seg start_seq) level s.0
  ok (finished (insert start_seq marked (insert s.1.start_seq s.1 (set key r.0 m))) true)

-- The segment goes on behind the range.
unfoldable pub split_beyond :
    InsertType → DataSeg → ℕ → ℕ → ℕ → ByteRange → RangeMap → Result Outcome
split_beyond itype seg level start_seq key br m = do
  r ← split_end start_seq br.end_seq br
  let marked = mark_split itype seg (this_is_rdb_data seg start_seq) level r.1
  ok (more (insert start_seq marked (set key r.0 m)) r.1.end_seq)

-- The segment starts inside the range at `key`.
unfoldable pub split_containing :
    InsertType → DataSeg → ℕ → ℕ → ℕ → ℕ → ByteRange → RangeMap → Result Outcome
split_containing InsertType.insert_sojourn seg level start_seq end_seq key br m =
    sojourn_inside seg start_seq end_seq key br m
split_containing itype seg level start_seq end_seq key br m =
    if br.start_seq == start_seq
    then (if end_seq == br.end_seq
        then err Fault.assertion
        else split_at_start itype seg level start_seq end_seq key br m)
    else if end_seq == br.end_seq
    then split_off_end itype seg level start_seq key br m
    else if ltb end_seq br.end_seq
    then split_middle itype seg level start_seq end_seq key br m
    else split_beyond itype seg level start_seq key br m

-- Data that no range holds: a new range, if it was sent.
unfoldable pub insert_new : InsertType → DataSeg → ℕ → ℕ → RangeMap → Result Outcome
insert_new InsertType.insert_sent seg start_seq end_seq m = do
  br ← new_sent_range seg (this_is_rdb_data seg start_seq) start_seq end_seq
  ok (finished (insert start_seq br m) true)
insert_new itype seg start_seq end_seq m = ok (finished m true)

-- No range starts at the segment's first byte.
unfoldable pub insert_not_found : InsertType → DataSeg → ℕ → ℕ → ℕ → ℕ → RangeMap → Result Outcome
insert_not_found itype seg level last_seq start_seq end_seq m =
    let candidates = up_to end_seq (from_before start_seq m) in
    if ltb start_seq last_seq
    then (if is_empty candidates
        then err Fault.assertion
        else elim (containing start_seq candidates) [
          | some (key, br) ↦ split_containing itype seg level start_seq end_seq key br m
          | none ↦ insert_new itype seg start_seq end_seq m
        ])
    else insert_new itype seg start_seq end_seq m

-- Sent data at a range that so far has pure acks only, and the range behind it.
unfoldable pub fill_gap : DataSeg → ℕ → ℕ → ByteRange → RangeMap → Result Outcome
fill_gap seg start_seq end_seq br m =
    let as_rdb = this_is_rdb_data seg start_seq in
    elim (next start_seq m) [
      | none ↦ do
        br' ← fill_range seg as_rdb true end_seq br
        ok (finished (set start_seq br' m) true)
      | some (key, after) ↦ do
        br' ←
            (if br.end_seq == after.start_seq
              then fill_range seg as_rdb false (add64 br.end_seq 1) br
              else fill_range seg as_rdb true (min after.start_seq end_seq) br)
        ok (
            if ltb br'.end_seq end_seq
            then more (set start_seq br' m) br'.end_seq
            else finished (set start_seq br' m) true)
    ]

-- The recursion stops at this depth, in the one branch that tests it.
abbrev pub recursion_level : ℕ
recursion_level = 1500

abbrev pub go_on : ℕ → RangeMap → ℕ → Result Outcome
go_on level m at = if ltb recursion_level level then err Fault.logic_error else ok (more m at)

-- The segment starts at the range and ends behind it.
unfoldable pub insert_longer :
    InsertType → DataSeg → ℕ → ℕ → ℕ → ByteRange → RangeMap → Result Outcome
unfolding fill_gap
insert_longer InsertType.insert_sent seg level start_seq end_seq br m =
    if br.byte_count == 0
    then fill_gap seg start_seq end_seq br m
    else go_on level
        (set start_seq (mark_sent_again seg (this_is_rdb_data seg start_seq) level br) m) br.end_seq
insert_longer InsertType.insert_recv seg level start_seq end_seq br m = do
  let br' = received_at seg level br
  assert (not (br'.received_tstamp_tcp == 0))
  go_on level (set start_seq br' m) br.end_seq
insert_longer InsertType.insert_sojourn seg level start_seq end_seq br m = do
  r ← add_segment_entered_kernel_time br.end_seq seg.tstamp_pcap br
  elim (next start_seq m) [
    | none ↦ ok (finished (set start_seq r.0 m) false)
    | some e ↦ go_on level (set start_seq r.0 m) br.end_seq
  ]

-- The segment starts at the range and ends inside it.
unfoldable pub insert_shorter :
    InsertType → DataSeg → ℕ → ℕ → ℕ → ByteRange → RangeMap → Result Outcome
insert_shorter InsertType.insert_sojourn seg level start_seq end_seq br m = do
  r ← add_segment_entered_kernel_time end_seq seg.tstamp_pcap br
  ok (finished (set start_seq r.0 m) true)
insert_shorter itype seg level start_seq end_seq br m = do
  r ← split_end end_seq br.end_seq br
  let as_rdb = this_is_rdb_data seg start_seq
  let cur : ByteRange =
      if is_sent itype then mark_sent_again seg as_rdb level r.0 else received_at seg level r.0
  ok (finished (insert r.1.start_seq r.1 (set start_seq cur m)) true)

abbrev pub is_recv : InsertType → Bool
is_recv InsertType.insert_recv = true
is_recv _ = false

-- A range starts at the segment's first byte. What looks like the ack on the SYN-ACK fails: either
-- there is no range at the byte before, or the assertion behind it does not hold.
unfoldable pub insert_found :
    InsertType → DataSeg → ℕ → ℕ → ℕ → ℕ → ByteRange → RangeMap → Result Outcome
insert_found itype seg level first_seq start_seq end_seq br m =
    if br.end_seq == end_seq
    then (do
      br' ← mark_same itype seg (this_is_rdb_data seg start_seq) level end_seq br
      ok (finished (set start_seq br' m) true))
    else if is_recv itype && end_seq == add32 first_seq 1
    then (elim (find (sub64 start_seq 1) m) [
      | none ↦ err Fault.out_of_range
      | some before ↦ err Fault.assertion
    ])
    else if ltb br.end_seq end_seq
    then insert_longer itype seg level start_seq end_seq br m
    else insert_shorter itype seg level start_seq end_seq br m

-- One call of `insertByteRange`, up to its recursive call.
unfoldable pub insert_step : InsertType → DataSeg → ℕ → ℕ → ℕ → ℕ → ℕ → RangeMap → Result Outcome
insert_step itype seg first_seq last_seq level start_seq end_seq m =
    if start_seq == end_seq
    then insert_empty itype seg level start_seq m
    else elim (find start_seq m) [
      | none ↦ insert_not_found itype seg level last_seq start_seq end_seq m
      | some br ↦ insert_found itype seg level first_seq start_seq end_seq br m
    ]
