-- ===== src/Manager/Stream.antt =====
-- What the ranges of a RangeManager hold of the sender's stream: an interval of it, as long as no
-- segment leaves a gap.
use analyse_tcp.Prelude.{
  ℕ, ◌+◌, ◌≤◌, ◌<◌, ◌≡◌, refl, ◌∙◌, sym, Bool, true, false, ◌==◌, ◌&&◌, if◌then◌else◌, max, List,
  [], ◌∷◌, arith, Result, ok, err, ◌>>=◌,
}
use analyse_tcp.Words.{u64_mod, add64}
use analyse_tcp.Range.{DataSeg, has_flag, th_syn}
use analyse_tcp.RangeMap.{RangeMap}
use analyse_tcp.RangeMap.Order.{Disjoint}
use analyse_tcp.RangeMap.Cover.{covers, within}
use analyse_tcp.RangeMap.Pieces.{top}
use analyse_tcp.Insert.{insert_byte_range, InsertType}
use analyse_tcp.Insert.Returns.{Returns, insert_byte_range-Returns}
use analyse_tcp.Insert.Whole.{Inserted, Ready, insert_byte_range-Inserted}
use analyse_tcp.Manager.{
  RangeManager, segment_fuel, insert_segment, advance_last_seq, insert_sent_range,
}

-- The ranges are in order and cover exactly the bytes from `b` up to the last sequence number.
pub record Holds (b : ℕ) (rm : RangeManager) : Type 0 where
  pub in_order : Disjoint 0 rm.ranges
  pub exact : (x : ℕ) → covers x rm.ranges ≡ within x b rm.last_seq
  pub ends : top rm.ranges ≤ rm.last_seq
  pub starts : b ≤ rm.last_seq

-- A segment with data, of at most 1501 bytes and no SYN, whose end is its start and its payload.
pub record IsSegment (seg : DataSeg) : Type 0 where
  pub has_data : 0 < seg.payload_size
  pub short : seg.payload_size ≤ 1501
  pub no_syn : has_flag seg.flags th_syn ≡ false
  pub spans : seg.end_seq ≡ seg.seq + seg.payload_size
  pub word : seg.end_seq < u64_mod

-- The call returns, with ranges that hold the stream up to `last`.
abbrev pub HoldsUpTo : ℕ → ℕ → Result RangeManager → Type 0
HoldsUpTo b last (ok rm) = Holds b rm × (rm.last_seq ≡ last)
HoldsUpTo b last (err f) = ⊥

advance_last_seq_lem :
    (seg : DataSeg) (rm : RangeManager)
    → IsSegment seg
    → seg.seq ≤ rm.last_seq
    → ((advance_last_seq seg rm).ranges ≡ rm.ranges)
      × ((advance_last_seq seg rm).last_seq ≡ max rm.last_seq seg.end_seq)
unfolding advance_last_seq
advance_last_seq_lem seg rm s le =
    let small : add64 seg.seq seg.payload_size ≡ seg.end_seq = omega arith in ground arith

-- The insertion of a segment of the stream that starts no further than the ranges reach.
insert_segment-Holds :
    (b : ℕ) (seg : DataSeg) (rm : RangeManager) (r : Result (RangeMap × Bool)) (counted : ℕ)
    → Holds b rm
    → IsSegment seg
    → b ≤ seg.seq
    → seg.seq ≤ rm.last_seq
    → Returns r
    → Inserted InsertType.insert_sent seg.seq seg.end_seq rm.ranges r
    → HoldsUpTo b (max rm.last_seq seg.end_seq) (
        r
        >>= (λ p. ok (record rm { ranges = p.0; analysed_sent_pure_ack_count = counted }))
        >>= λ rm'. ok (advance_last_seq seg rm'))
insert_segment-Holds b seg rm (err f) counted h s lo le u i = u
insert_segment-Holds b seg rm (ok (m', b')) counted h s lo le u (order, grows, up) =
    let rm' : RangeManager = record rm { ranges = m'; analysed_sent_pure_ack_count = counted } in
    let (same, last) = advance_last_seq_lem seg rm' s le in
    let covered : (x : ℕ) → covers x m' ≡ within x b (max rm.last_seq seg.end_seq) =
      λ x. ground (arith, grows x, h.exact x) in
    (
      record {
        in_order = rw same order;
        exact = λ x. rw (same, last) (covered x);
        ends = rw (same, last) (omega (arith, h.ends));
        starts = rw last (omega (arith, h.starts));
      },
      last,
    )

-- Sent data with no gap before it, in a segment of at most 1501 bytes that is no SYN: `insertSentRange`
-- returns, with ranges that are in order and cover exactly the bytes up to the new last sequence
-- number, which is the end of the segment if that is larger than the old one. Retransmissions and
-- bundles, whole or in part, are such segments.
pub insert_sent_range-Holds :
    (b : ℕ) (seg : DataSeg) (rm : RangeManager)
    → Holds b rm
    → IsSegment seg
    → b ≤ seg.seq
    → seg.seq ≤ rm.last_seq
    → HoldsUpTo b (max rm.last_seq seg.end_seq) (insert_sent_range seg rm)
unfolding insert_sent_range insert_segment
insert_sent_range-Holds b seg rm h s lo le =
    let run =
      insert_byte_range (segment_fuel seg.seq seg.end_seq) InsertType.insert_sent seg rm.first_seq
        rm.last_seq 0 seg.seq seg.end_seq rm.ranges in
    let ready : Ready InsertType.insert_sent rm.last_seq seg.seq rm.ranges =
      λ e. ((λ x lx xt. h.exact x ∙ ground (arith, h.ends)), omega (arith, h.ends)) in
    let inserted =
      insert_byte_range-Inserted (segment_fuel seg.seq seg.end_seq) InsertType.insert_sent seg
        rm.first_seq rm.last_seq 0 seg.seq seg.end_seq rm.ranges (omega arith)
        (omega (arith, s.has_data)) (omega arith) s.word h.in_order ready in
    let returns =
      insert_byte_range-Returns (segment_fuel seg.seq seg.end_seq) seg rm.first_seq rm.last_seq 0
        seg.seq seg.end_seq rm.ranges (omega arith) (omega (arith, s.has_data)) s.word (omega arith)
        s.no_syn h.in_order (λ x lx xl. h.exact x ∙ ground (arith)) in
    let counted =
      if seg.seq == seg.end_seq && true
      then rm.analysed_sent_pure_ack_count + 1
      else rm.analysed_sent_pure_ack_count in
    insert_segment-Holds b seg rm run counted h s lo le returns inserted

-- The segments go into the ranges one after the other.
unfoldable pub insert_all : List DataSeg → RangeManager → Result RangeManager
insert_all [] rm = ok rm
insert_all (seg ∷ segs) rm = insert_sent_range seg rm >>= insert_all segs

-- No segment starts before `b` or behind the bytes up to `last` and those of the segments before it.
abbrev pub Follows : ℕ → ℕ → List DataSeg → Type 0
Follows b last [] = Unit {0}
Follows b last (seg ∷ segs) =
    IsSegment seg × (b ≤ seg.seq) × (seg.seq ≤ last) × Follows b (max last seg.end_seq) segs

abbrev pub stream_end : ℕ → List DataSeg → ℕ
stream_end last [] = last
stream_end last (seg ∷ segs) = stream_end (max last seg.end_seq) segs

-- A whole stream of segments without gaps, each of at most 1501 bytes and none a SYN, with any
-- retransmissions and bundles among them: every insertion returns, and the ranges at the end are in
-- order and cover exactly the bytes up to the largest end of a segment.
pub insert_all-Holds :
    (b : ℕ) (segs : List DataSeg) (rm : RangeManager)
    → Holds b rm
    → Follows b rm.last_seq segs
    → HoldsUpTo b (stream_end rm.last_seq segs) (insert_all segs rm)
unfolding insert_all
insert_all-Holds b [] rm h f = (h, refl)
insert_all-Holds b (seg ∷ segs) rm h (s, lo, le, rest) =
    go (insert_sent_range seg rm) (insert_sent_range-Holds b seg rm h s lo le)
      (λ rm' h' e. insert_all-Holds b segs rm' h' (rw e rest))
  where
    go :
        (r : Result RangeManager)
        → HoldsUpTo b (max rm.last_seq seg.end_seq) r
        → ((rm' : RangeManager)
            → Holds b rm'
            → rm'.last_seq ≡ max rm.last_seq seg.end_seq
            → HoldsUpTo b (stream_end rm'.last_seq segs) (insert_all segs rm'))
        → HoldsUpTo b (stream_end (max rm.last_seq seg.end_seq) segs) (r >>= insert_all segs)
    go (err f) i next = i
    go (ok rm') (h', e) next = rw (sym e) (next rm' h' e)
