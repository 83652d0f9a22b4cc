-- ===== src/Manager/AckFault.antt =====
-- The search for a FIN in `processAck` that leaves the map.
use analyse_tcp.Prelude.{
  ℕ, ◌+◌, ◌<◌, ◌≡◌, refl, ◌≢◌, true, false, ltb, ◌==◌, ◌&&◌, ◌||◌, some, ◌∷◌, arith, err, Fault,
}
use analyse_tcp.Words.{u64_mod, sub64}
use analyse_tcp.Range.{ByteRange, DataSeg}
use analyse_tcp.RangeMap.{RangeMap, find}
use analyse_tcp.Manager.{RangeManager}
use analyse_tcp.Manager.Ack.{
  fin_ack, earlier_ack, ack_loop, ack_ranges, process_ack, keys_from, keys_before,
}

-- The first range of the map has no FIN, and its counts of packets and of data sent differ; the second range
-- starts one byte behind its end, is not empty and is the highest acked one. An ack below 2^64 at the
-- start of the second range takes the iterator before the first range, out of the map.
pub process_ack_leaves :
    (seg : DataSeg) (rm : RangeManager) (j : ℕ) (first second : ByteRange) (m : RangeMap)
    → rm.ranges ≡ (j, first) ∷ (seg.ack, second) ∷ m
    → rm.highest_acked ≡ some seg.ack
    → j < seg.ack
    → seg.ack < u64_mod
    → second.start_seq ≡ seg.ack
    → seg.ack < second.end_seq
    → 1 + first.end_seq ≡ seg.ack
    → first.fin ≡ 0
    → first.packet_sent_count ≢ first.data_sent_count
    → process_ack seg rm ≡ err Fault.out_of_range
unfolding process_ack ack_ranges ack_loop earlier_ack fin_ack keys_from find
process_ack_leaves seg rm j first second m e highest lt word start end gap no_fin differ =
    let key : ltb j seg.ack ≡ true = ground arith in
    let self : ltb seg.ack seg.ack ≡ false = ground arith in
    let same : (seg.ack == seg.ack) ≡ true = ground arith in
    let other : (j == seg.ack) ≡ false = ground arith in
    let at_start : ltb seg.ack second.start_seq ≡ false = ground arith in
    let exact : (seg.ack == second.end_seq
          || (second.byte_count == 0 && sub64 seg.ack 1 == second.end_seq))
        ≡ false =
      ground arith in
    let over : ltb second.end_seq seg.ack ≡ false = ground arith in
    let inside : (ltb second.start_seq seg.ack && ltb seg.ack second.end_seq) ≡ false =
      ground arith in
    let behind : (sub64 seg.ack 1 == first.end_seq) ≡ true = ground arith in
    let fin : (first.fin == 0) ≡ true = ground arith in
    let counts : (first.packet_sent_count == first.data_sent_count) ≡ false =
      ground (arith, differ) in
    let itself : (j == j) ≡ true = ground arith in
    rw
      (
        highest, e, key, self, other, same, at_start, exact, over, inside, keys_before, key, self,
        itself, behind, fin, counts,
      )
      refl
