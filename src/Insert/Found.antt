-- ===== src/Insert/Found.antt =====
-- One step of insertByteRange on a segment with data that starts where a range starts.
use analyse_tcp.Prelude.{
  ℕ, ◌+◌, ◌≤◌, ◌<◌, ◌≡◌, refl, ◌∙◌, sym, Bool, true, false, ltb, ◌==◌, ◌&&◌, ◌||◌, ◌⊎◌, max, min,
  some, arith, Bool-cases, Option-cases, inl, inr, ok, ◌>>=◌, ltb→lt, ==→eq,
}
use analyse_tcp.Words.{u64_mod, add32, sub64}
use analyse_tcp.Range.{ByteRange, DataSeg, add_segment_entered_kernel_time, split_end}
use analyse_tcp.Range.Split.{
  IsRange, left_part, right_part, split_end_lem, left_part-IsRange, right_part-IsRange,
}
use analyse_tcp.RangeMap.{RangeMap, find, insert, set, next}
use analyse_tcp.RangeMap.Order.{Disjoint, FitsBefore, find-Disjoint, next-some, set-Disjoint}
use analyse_tcp.RangeMap.Cover.{covers, within, covers-set}
use analyse_tcp.RangeMap.Pieces.{top, top-set, same_piece, two_pieces}
use analyse_tcp.Insert.Marks.{
  InsertType, is_sent, this_is_rdb_data, received_at, mark_sent_again, mark_same, fill_range,
}
use analyse_tcp.Insert.Kept.{
  SamePlace, SamePlace-IsRange, received_at-SamePlace, mark_sent_again-SamePlace, sojourn-SamePlace,
  mark_same-SamePlace, fill_range_lem,
}
use analyse_tcp.Insert.Steps.{
  finished, fill_gap, insert_longer, insert_shorter, insert_found, insert_step, is_recv, go_on,
  recursion_level,
}
use analyse_tcp.Insert.Progress.{
  Steps, bind-Steps, Refines-finished, Refines-more, sojourn-NoFuel, mark_same-NoFuel,
  fill_range-NoFuel,
}
use analyse_tcp.Insert.Branches.{HasRoom, insert_not_found-Steps}

module _ (seg : DataSeg) (level first last start end : ℕ) (m : RangeMap) (Q : Type 0)
    (d : Disjoint 0 m) (nonempty : start < end) (short : end < start + 65535) (word : end < u64_mod)
    (br : ByteRange) (found : find start m ≡ some br) where
  found-IsRange : (br.start_seq ≡ start) × IsRange br
  found-IsRange = let (_, s, r) = find-Disjoint start 0 m br d found in (s, r)

  -- An empty range that is filled up to `at`, which is no further than the next range.
  filled :
      (whole : Bool) (at : ℕ) (br' : ByteRange)
      → br.byte_count ≡ 0
      → start < at
      → at ≤ end
      → FitsBefore at (next start m)
      → fill_range seg (this_is_rdb_data seg start) whole at br ≡ ok br'
      → (br'.end_seq ≡ at)
        × Disjoint 0 (set start br' m)
        × ((x : ℕ) → covers x (set start br' m) ≡ (covers x m || within x start br'.end_seq))
        × (top (set start br' m) ≤ max (top m) br'.end_seq)
  filled whole at br' empty sa ae fits e =
      let (s, r) = found-IsRange in
      let (fs, fe, fr) =
        fill_range_lem seg (this_is_rdb_data seg start) whole at br br' (omega arith) (omega arith)
          (omega arith) e in
      let fits' : FitsBefore br'.end_seq (next start m) = rw fe fits in
      (
        fe,
        set-Disjoint start 0 m br br' d found (fs ∙ s) fr fits',
        (λ x. ground (arith, covers-set x start 0 m br br' d found)),
        omega (arith, top-set start br' m),
      )

  fill_gap-Steps :
      br.byte_count ≡ 0
      → Steps InsertType.insert_sent level start end m Q (fill_gap seg start end br m)
  unfolding fill_gap
  fill_gap-Steps empty =
      let (s, r) = found-IsRange in
      let r_seg = this_is_rdb_data seg start in
      elim (Option-cases (next start m)) [
        | inl no_next ↦
            rw (fill_gap, no_next)
              (bind-Steps InsertType.insert_sent seg level start end m Q d nonempty
                (fill_range seg r_seg true end br) _ (fill_range-NoFuel seg r_seg true end br)
                (λ br' e q.
                  let (fe, order, cov, t) =
                    filled true end br' empty nonempty (omega arith) (rw no_next tt) e in
                  (order, (λ x. rw (sym fe) (cov x)), omega arith)))
        | inr ((k, after), there) ↦
            let (sk, ks) = next-some start 0 k m after d there in
            let apart : (br.end_seq == after.start_seq) ≡ false = ground arith in
            let at = min after.start_seq end in
            rw (fill_gap, there, apart)
              (bind-Steps InsertType.insert_sent seg level start end m Q d nonempty
                (fill_range seg r_seg true at br) _ (fill_range-NoFuel seg r_seg true at br)
                (λ br' e.
                  let (fe, order, cov, t) =
                    filled true at br' empty (omega arith) (omega arith) (rw there (omega arith))
                      e in
                  elim (Bool-cases (ltb br'.end_seq end)) [
                    | inl l ↦ rw l (order, cov, t, omega arith, ltb→lt _ _ l, inr (omega arith))
                    | inr l ↦
                        let same : br'.end_seq ≡ end = ground arith in
                        rw l (λ q. (order, (λ x. rw (sym same) (cov x)), omega arith))
                  ]))
      ]

  -- The range keeps its place, and the segment goes on behind it.
  kept_on-Steps :
      (t : InsertType) (v : ByteRange)
      → SamePlace br v
      → br.end_seq < end
      → (is_sent t ≡ false) ⊎ (start < br.end_seq)
      → Steps t level start end m Q (go_on level (set start v m) br.end_seq)
  kept_on-Steps t v same lt moved =
      let (s, r) = found-IsRange in
      let (vs, ve, vc) = same in
      elim (Bool-cases (ltb recursion_level level)) [
        | inl h ↦ rw h tt
        | inr h ↦ rw h (
            Refines-more t seg level start end m Q d nonempty (set start v m) start br found
              (omega arith) (omega arith) lt (ground arith)
              (same_piece m start br d found v (vs ∙ s) ve (SamePlace-IsRange br v same r)))
      ]

  insert_longer-Steps :
      (t : InsertType)
      → br.end_seq < end
      → Steps t level start end m Q (insert_longer t seg level start end br m)
  unfolding insert_longer
  insert_longer-Steps InsertType.insert_sent lt =
      let v = mark_sent_again seg (this_is_rdb_data seg start) level br in
      elim (Bool-cases (br.byte_count == 0)) [
        | inl h ↦ rw h (fill_gap-Steps (==→eq _ _ h))
        | inr h ↦ rw h (
            kept_on-Steps InsertType.insert_sent v
              (mark_sent_again-SamePlace seg (this_is_rdb_data seg start) level br) lt
              (let (s, r) = found-IsRange in inr (ground arith)))
      ]
  insert_longer-Steps InsertType.insert_recv lt =
      let v = received_at seg level br in
      elim (Bool-cases (v.received_tstamp_tcp == 0)) [
        | inl h ↦ rw h tt
        | inr h ↦ rw h (
            kept_on-Steps InsertType.insert_recv v (received_at-SamePlace seg level br) lt
              (inl refl))
      ]
  insert_longer-Steps InsertType.insert_sojourn lt =
      bind-Steps InsertType.insert_sojourn seg level start end m Q d nonempty
        (add_segment_entered_kernel_time br.end_seq seg.tstamp_pcap br) _
        (sojourn-NoFuel br.end_seq seg.tstamp_pcap br)
        (λ a e.
          let (s, r) = found-IsRange in
          let same = sojourn-SamePlace br.end_seq seg.tstamp_pcap br a e in
          elim (Option-cases (next start m)) [
            | inl n ↦
                let (order, cov, t) =
                  same_piece m start br d found a.0 (same.0 ∙ s) (same.1)
                    (SamePlace-IsRange br a.0 same r) in
                rw n (λ q. (order, (λ x. ground (arith, cov x)), omega arith))
            | inr (k, n) ↦ rw n (kept_on-Steps InsertType.insert_sojourn a.0 same lt (inl refl))
          ])

  -- The range is split at the end of the segment.
  shorter-split :
      (t : InsertType) (f : ByteRange → ByteRange)
      → ((v : ByteRange) → SamePlace v (f v))
      → end < br.end_seq
      → Steps t level start end m Q (
          split_end end br.end_seq br >>= λ r.
          ok (finished (insert r.1.start_seq r.1 (set start (f r.0) m)) true))
  shorter-split t f keeps lt =
      let (s, r) = found-IsRange in
      let left = left_part end br in
      let (fs, fe, fc) = keeps left in
      rw (split_end_lem end br r (omega arith) (omega arith)) (
        Refines-finished t seg level start end m Q d nonempty
          (insert end (right_part end br) (set start (f left) m)) start br true found (omega arith)
          (omega arith)
          (two_pieces m start br d found end (f left) (right_part end br) nonempty lt
            (
              fs ∙ s,
              fe,
              SamePlace-IsRange left (f left) (fs, fe, fc)
                  (left_part-IsRange end br r (omega arith) (omega arith)),
            )
            (refl, refl, right_part-IsRange end br r (omega arith) (omega arith))))

  insert_shorter-Steps :
      (t : InsertType)
      → end < br.end_seq
      → Steps t level start end m Q (insert_shorter t seg level start end br m)
  unfolding insert_shorter
  insert_shorter-Steps InsertType.insert_sent lt =
      shorter-split InsertType.insert_sent (mark_sent_again seg (this_is_rdb_data seg start) level)
        (mark_sent_again-SamePlace seg (this_is_rdb_data seg start) level) lt
  insert_shorter-Steps InsertType.insert_recv lt =
      shorter-split InsertType.insert_recv (received_at seg level) (received_at-SamePlace seg level)
        lt
  insert_shorter-Steps InsertType.insert_sojourn lt =
      bind-Steps InsertType.insert_sojourn seg level start end m Q d nonempty
        (add_segment_entered_kernel_time end seg.tstamp_pcap br) _
        (sojourn-NoFuel end seg.tstamp_pcap br)
        (λ a e.
          let (s, r) = found-IsRange in
          let same = sojourn-SamePlace end seg.tstamp_pcap br a e in
          Refines-finished InsertType.insert_sojourn seg level start end m Q d nonempty
            (set start a.0 m) start br true found (omega arith) (omega arith)
            (same_piece m start br d found a.0 (same.0 ∙ s) same.1
              (SamePlace-IsRange br a.0 same r)))

  pub insert_found-Steps :
      (t : InsertType) → Steps t level start end m Q (insert_found t seg level first start end br m)
  unfolding insert_found
  insert_found-Steps t = elim (Bool-cases (br.end_seq == end)) [
    | inl h ↦
        let r_seg = this_is_rdb_data seg start in
        rw h (
          bind-Steps t seg level start end m Q d nonempty (mark_same t seg r_seg level end br) _
            (mark_same-NoFuel t seg r_seg level end br)
            (λ v e.
              let (s, r) = found-IsRange in
              let same = mark_same-SamePlace t seg r_seg level end br v e in
              Refines-finished t seg level start end m Q d nonempty (set start v m) start br true
                found (omega arith) (omega (arith, ==→eq _ _ h))
                (same_piece m start br d found v (same.0 ∙ s) same.1
                  (SamePlace-IsRange br v same r))))
    | inr h ↦ rw h (elim (Bool-cases (is_recv t && end == add32 first 1)) [
      | inl syn ↦
          rw syn (elim (Option-cases (find (sub64 start 1) m)) [
            | inl n ↦ rw n tt
            | inr (b, n) ↦ rw n tt
          ])
      | inr syn ↦ rw syn (elim (Bool-cases (ltb br.end_seq end)) [
        | inl l ↦ rw l (insert_longer-Steps t (ltb→lt _ _ l))
        | inr l ↦ rw l (insert_shorter-Steps t (ground arith))
      ])
    ])
  ]

-- One call on a segment with data.
pub insert_step-Steps :
    (t : InsertType) (seg : DataSeg) (level first last start end : ℕ) (m : RangeMap) (Q : Type 0)
    → Disjoint 0 m
    → start < end
    → end < start + 65535
    → end < u64_mod
    → (Q → HasRoom t last start end m)
    → Steps t level start end m Q (insert_step t seg first last level start end m)
unfolding insert_step
insert_step-Steps t seg level first last start end m Q d nonempty short word room =
    let differ : (start == end) ≡ false = ground arith in
    rw differ (elim (Option-cases (find start m)) [
      | inl n ↦
          rw n (
            insert_not_found-Steps t seg level first last start end m d nonempty Q room n short
              word)
      | inr (br, f) ↦
          rw f (insert_found-Steps seg level first last start end m Q d nonempty short word br f t)
    ])
