-- ===== src/Insert/Progress.antt =====
-- One step of insertByteRange: the map keeps its order, the bytes that it covers grow by what was
-- inserted, and what remains is a shorter segment.
use analyse_tcp.Prelude.{
  ℕ, ◌≤◌, ◌<◌, ◌≡◌, refl, ◌∙◌, Bool, true, false, ltb, ◌==◌, ◌&&◌, ◌||◌, if◌then◌else◌, max, some,
  arith, Bool-cases, inl, inr, ◌⊎◌, Result, ok, err, Fault, ◌>>=◌, ltb→lt, ==→eq,
}
use analyse_tcp.Time.{Timeval}
use analyse_tcp.Range.{
  new_byte_range, update_byte_count, ByteRange, DataSeg, has_flag, th_fin,
  add_segment_entered_kernel_time,
}
use analyse_tcp.Range.Split.{
  IsRange, left_part, right_part, split_end_lem, left_part-IsRange, right_part-IsRange,
}
use analyse_tcp.RangeMap.{RangeMap, find, insert, set}
use analyse_tcp.RangeMap.Order.{Disjoint, find-Disjoint}
use analyse_tcp.RangeMap.Cover.{covers, within, find-covers}
use analyse_tcp.RangeMap.Pieces.{top, Refines, same_piece, two_pieces, three_pieces}
use analyse_tcp.Insert.Marks.{
  InsertType, is_sent, this_is_rdb_data, mark_split, mark_same, fill_range, new_sent_range,
}
use analyse_tcp.Insert.Kept.{SamePlace-IsRange, mark_split-SamePlace, sojourn-SamePlace}
use analyse_tcp.Insert.Steps.{
  Outcome, finished, more, sojourn_inside, split_off_end, split_middle, split_beyond,
}

-- The bytes from `a` up to `b` are added, if the insertion is of sent data.
abbrev pub Grows : InsertType → ℕ → ℕ → RangeMap → RangeMap → Type 0
Grows t a b m m' = (x : ℕ) → covers x m' ≡ (covers x m || (is_sent t && within x a b))

-- What a step from `start` leaves. The end of an insertion is described if there was room for a new
-- range, and the rest of a segment in any case.
abbrev pub After : InsertType → ℕ → ℕ → ℕ → RangeMap → Type 0 → Outcome → Type 0
After t level start end m Q (finished m' b) =
    Q → Disjoint 0 m' × Grows t start end m m' × (top m' ≤ max (top m) end)
After t level start end m Q (more m' at) =
    Disjoint 0 m'
    × Grows t start at m m'
    × (top m' ≤ max (top m) at)
    × (start ≤ at)
    × (at < end)
    × (((level ≤ 1500) × (is_sent t ≡ false)) ⊎ (start < at))

-- A fault of the program, not of the fuel.
abbrev pub IsProgramFault : Fault → Type 0
IsProgramFault Fault.out_of_fuel = ⊥
IsProgramFault _ = Unit {0}

abbrev pub Steps : InsertType → ℕ → ℕ → ℕ → RangeMap → Type 0 → Result Outcome → Type 0
Steps t level start end m Q (ok o) = After t level start end m Q o
Steps t level start end m Q (err f) = IsProgramFault f

abbrev pub NoFuel : {A : Type 0} → Result A → Type 0
NoFuel (ok a) = Unit {0}
NoFuel (err f) = IsProgramFault f

pub sojourn-NoFuel :
    (seq : ℕ) (tv : Timeval) (br : ByteRange) → NoFuel (add_segment_entered_kernel_time seq tv br)
unfolding add_segment_entered_kernel_time
sojourn-NoFuel seq tv br = ground arith

pub mark_same-NoFuel :
    (t : InsertType) (seg : DataSeg) (r : Bool) (level end : ℕ) (br : ByteRange)
    → NoFuel (mark_same t seg r level end br)
unfolding mark_same
mark_same-NoFuel InsertType.insert_sent seg r level end br = tt
mark_same-NoFuel InsertType.insert_recv seg r level end br = tt
mark_same-NoFuel InsertType.insert_sojourn seg r level end br =
    ground (arith, sojourn-NoFuel end seg.tstamp_pcap br)

pub fill_range-NoFuel :
    (seg : DataSeg) (r whole : Bool) (end : ℕ) (br : ByteRange)
    → NoFuel (fill_range seg r whole end br)
unfolding fill_range update_byte_count
fill_range-NoFuel seg r whole end br = ground arith

pub new_sent_range-NoFuel :
    (seg : DataSeg) (r : Bool) (start end : ℕ) → NoFuel (new_sent_range seg r start end)
unfolding new_sent_range new_byte_range update_byte_count
new_sent_range-NoFuel seg r start end = ground arith

-- A part of a range that is covered adds nothing.
covered_grows :
    (t : InsertType) (x a b : ℕ) (m : RangeMap)
    → (a ≤ x → x < b → covers x m ≡ true)
    → covers x m ≡ (covers x m || (is_sent t && within x a b))
covered_grows t x a b m h = ground (arith, h)

module _ (t : InsertType) (seg : DataSeg) (level start end : ℕ) (m : RangeMap) (Q : Type 0)
    (d : Disjoint 0 m) (nonempty : start < end) where
  pub bind-Steps :
      {A : Type 0} (r : Result A) (f : A → Result Outcome)
      → NoFuel r
      → ((a : A) → r ≡ ok a → Steps t level start end m Q (f a))
      → Steps t level start end m Q (r >>= f)
  bind-Steps (ok a) f n h = h a refl
  bind-Steps (err e) f n h = n

  pub Refines-finished :
      (m' : RangeMap) (k : ℕ) (br : ByteRange) (b : Bool)
      → find k m ≡ some br
      → k ≤ start
      → end ≤ br.end_seq
      → Refines m m'
      → After t level start end m Q (finished m' b)
  Refines-finished m' k br b found ks se (order, same, h) q = (
    order,
    λ x.
        same x
        ∙ covered_grows t x start end m
            (λ p r. find-covers x k 0 m br d found (omega arith) (omega arith)),
    omega (arith, h),
  )

  pub Refines-more :
      (m' : RangeMap) (k : ℕ) (br : ByteRange)
      → find k m ≡ some br
      → k ≤ start
      → start ≤ br.end_seq
      → br.end_seq < end
      → ((level ≤ 1500) × (is_sent t ≡ false)) ⊎ (start < br.end_seq)
      → Refines m m'
      → After t level start end m Q (more m' br.end_seq)
  Refines-more m' k br found ks sb be l (order, same, h) = (
    order,
    (λ x.
        same x
        ∙ covered_grows t x start br.end_seq m
            (λ p r. find-covers x k 0 m br d found (omega arith) r)),
    omega arith,
    sb,
    be,
    l,
  )

  -- The branches for a segment that starts inside the range at `k`.
  module _ (k : ℕ) (br : ByteRange) (found : find k m ≡ some br) (inside : k < start)
      (before_end : start < br.end_seq) where
    range : (br.start_seq ≡ k) × IsRange br
    range = let (_, s, r) = find-Disjoint k 0 m br d found in (s, r)

    pub split_off_end-Steps :
        end ≡ br.end_seq → Steps t level start end m Q (split_off_end t seg level start k br m)
    unfolding split_off_end
    split_off_end-Steps same =
        let (s, r) = range in
        let r' : ByteRange = record (right_part start br) {
          fin = if has_flag seg.flags th_fin then 1 else 0;
        } in
        let right = right_part-IsRange start br r (omega arith) (omega arith) in
        let marked = mark_split t seg (this_is_rdb_data seg start) level r' in
        let (ms, me, mc) = mark_split-SamePlace t seg (this_is_rdb_data seg start) level r' in
        rw (split_end_lem start br r (omega arith) (omega arith)) (
          Refines-finished (insert start marked (set k (left_part start br) m)) k br true found
            (omega arith) (omega arith)
            (two_pieces m k br d found start (left_part start br) marked inside before_end
              (s, refl, left_part-IsRange start br r (omega arith) (omega arith))
              (ms, me, SamePlace-IsRange r' marked (ms, me, mc) (omega arith))))

    pub split_beyond-Steps :
        br.end_seq < end → Steps t level start end m Q (split_beyond t seg level start k br m)
    unfolding split_beyond
    split_beyond-Steps short =
        let (s, r) = range in
        let r' = right_part start br in
        let right = right_part-IsRange start br r (omega arith) (omega arith) in
        let marked = mark_split t seg (this_is_rdb_data seg start) level r' in
        let (ms, me, mc) = mark_split-SamePlace t seg (this_is_rdb_data seg start) level r' in
        rw (split_end_lem start br r (omega arith) (omega arith)) (
          Refines-more (insert start marked (set k (left_part start br) m)) k br found (omega arith)
            (omega arith) short (inr before_end)
            (two_pieces m k br d found start (left_part start br) marked inside before_end
              (s, refl, left_part-IsRange start br r (omega arith) (omega arith))
              (ms, me, SamePlace-IsRange r' marked (ms, me, mc) right)))

    pub split_middle-Steps :
        end < br.end_seq → Steps t level start end m Q (split_middle t seg level start end k br m)
    unfolding split_middle
    split_middle-Steps short =
        let (s, r) = range in
        let v : ByteRange = record (right_part start br) {
          fin = if has_flag seg.flags th_fin then 1 else 0;
        } in
        let vr : IsRange v = omega (arith, r) in
        let r' = right_part end v in
        let right = right_part-IsRange end v vr (omega arith) (omega arith) in
        let left = left_part-IsRange end v vr (omega arith) (omega arith) in
        let marked = mark_split t seg (this_is_rdb_data seg start) level (left_part end v) in
        let (ms, me, mc) =
          mark_split-SamePlace t seg (this_is_rdb_data seg start) level (left_part end v) in
        rw
          (
            split_end_lem start br r (omega arith) (omega arith),
            split_end_lem end v vr (omega arith) (omega arith),
          )
          (Refines-finished (insert start marked (insert end r' (set k (left_part start br) m))) k
            br true found (omega arith) (omega arith)
            (three_pieces m k br d found start end (left_part start br) marked r' inside nonempty
              short (s, refl, left_part-IsRange start br r (omega arith) (omega arith))
              (ms, me, SamePlace-IsRange (left_part end v) marked (ms, me, mc) left)
              (refl, refl, right)))

    pub sojourn_inside-Steps : Steps t level start end m Q (sojourn_inside seg start end k br m)
    unfolding sojourn_inside
    sojourn_inside-Steps =
        let (s, r) = range in
        let stamped : (seq : ℕ)
            → end ≤ br.end_seq
            → Steps t level start end m Q (
                add_segment_entered_kernel_time seq seg.tstamp_pcap br >>= λ a.
                ok (finished (set k a.0 m) true)) =
          λ seq le.
            bind-Steps (add_segment_entered_kernel_time seq seg.tstamp_pcap br) _
              (sojourn-NoFuel seq seg.tstamp_pcap br)
              (λ a e.
                let (ms, me, mc) = sojourn-SamePlace seq seg.tstamp_pcap br a e in
                Refines-finished (set k a.0 m) k br true found (omega arith) le (
                  same_piece m k br d found a.0 (ms ∙ s) me
                    (SamePlace-IsRange br a.0 (ms, me, mc) r))) in
        let off : (br.start_seq == start) ≡ false = ground arith in
        rw off (elim (Bool-cases (end == br.end_seq)) [
          | inl h ↦ rw h (stamped seg.end_seq (omega (arith, ==→eq _ _ h)))
          | inr h ↦ rw h (elim (Bool-cases (ltb end br.end_seq)) [
            | inl l ↦ rw l (stamped end (omega (arith, ltb→lt _ _ l)))
            | inr l ↦ rw l (
                Refines-more m k br found (omega arith) (omega arith) (ground arith)
                  (inr before_end) (d, λ x. refl, omega arith))
          ])
        ])
