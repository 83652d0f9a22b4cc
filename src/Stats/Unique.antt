-- ===== src/Stats/Unique.antt =====
-- The bytes that the statistics call unique are those of the stream.
use analyse_tcp.Prelude.{
  ℕ, ◌+◌, ◌-◌, ◌%◌, ◌≤◌, ◌<◌, ◌≡◌, refl, subst, ◌≢◌, Bool, true, false, ◌==◌, ltb, none, some, [],
  ◌∷◌, arith, Bool-cases, inl, inr, ==→eq, ltb→lt, ap, ok,
}
use analyse_tcp.Words.{u64_mod}
use analyse_tcp.Range.{ByteRange}
use analyse_tcp.RangeMap.{RangeMap}
use analyse_tcp.RangeMap.Order.{Disjoint, beyond}
use analyse_tcp.RangeMap.Cover.{covers, within, covers_low}
use analyse_tcp.Manager.{RangeManager}
use analyse_tcp.Manager.Stream.{Holds}
use analyse_tcp.Stats.Matched.{total_bytes, match_range-SameCounts}
use analyse_tcp.Stats.Loss.{
  Analysis, new_analysis, match_range, count_range, loss_loop, calculate_real_loss, first_data,
  last_data, get_num_unique_bytes,
}

-- The ranges cover the bytes from `b` up to `last`, and no others.
abbrev pub Spans : ℕ → ℕ → RangeMap → Type 0
Spans b last m = (x : ℕ) → covers x m ≡ within x b last

-- The ranges behind the first one, if it has data: it starts at `b`.
pub filled_first :
    (lo b last k : ℕ) (br : ByteRange) (m : RangeMap)
    → Disjoint lo ((k, br) ∷ m)
    → Spans b last ((k, br) ∷ m)
    → br.byte_count ≢ 0
    → (br.start_seq ≡ b) × (br.end_seq ≤ last) × Spans br.end_seq last m
unfolding covers
filled_first lo b last k br m d s filled =
    let (_, st, r, dm) = d in
    let low : (x : ℕ) → x < beyond k br → covers x m ≡ false =
      λ x h. covers_low x (beyond k br) m dm h in
    let start : br.start_seq ≡ b = ground (arith, s k, s b, low k, low b) in
    let end : br.end_seq ≤ last = ground (arith, s (br.end_seq - 1)) in
    (start, end, λ x. ground (arith, s x, low x))

-- The ranges behind an empty one.
pub empty_first :
    (lo b last k : ℕ) (br : ByteRange) (m : RangeMap)
    → Disjoint lo ((k, br) ∷ m)
    → Spans b last ((k, br) ∷ m)
    → br.byte_count ≡ 0
    → Spans b last m
unfolding covers
empty_first lo b last k br m d s empty x = ground (arith, s x)

-- In order, without overlaps, and with no gap: the ranges hold as many bytes as they span, and the first
-- and the last one with data start and end where they do.
spanned :
    (lo b last : ℕ) (m : RangeMap)
    → Disjoint lo m
    → Spans b last m
    → b ≤ last
    → (total_bytes m + b ≡ last)
      × (b < last → first_data m ≡ b)
      × (b < last → last_data m ≡ some last)
      × (b ≡ last → last_data m ≡ none)
unfolding total_bytes first_data last_data covers
spanned lo b last [] d s le =
    let none_there : last ≤ b = ground (arith, s b) in
    (omega arith, (λ h. ground arith), (λ h. ground arith), λ h. refl)
spanned lo b last ((k, br) ∷ m) d s le = elim (Bool-cases (br.byte_count == 0)) [
  | inl h ↦
      let rest =
        spanned (beyond k br) b last m d.3 (empty_first lo b last k br m d s (==→eq _ _ h)) le in
      (
        omega (arith, rest.0, ==→eq _ _ h),
        (λ l. rw h (rest.1 l)),
        (λ l. rw (rest.2 l) refl),
        λ e. rw (rest.3 e, h) refl,
      )
  | inr h ↦
      let (start, end, behind) = filled_first lo b last k br m d s (ground (arith, h)) in
      let rest = spanned (beyond k br) br.end_seq last m d.3 behind end in
      let (_, st, r, dm) = d in
      (
        omega (arith, rest.0),
        (λ l. rw h start),
        (λ l. elim (Bool-cases (ltb br.end_seq last)) [
          | inl g ↦ rw (rest.2 (ltb→lt _ _ g)) refl
          | inr g ↦
              let same : br.end_seq ≡ last = ground arith in rw (rest.3 same, h) (ap some same)
        ]),
        λ e. ground (arith, h, start, end),
      )
]

-- The counter of unique bytes, over the ranges that are analysed.
loss_loop_unique :
    (w : Bool) (m : RangeMap) (a : Analysis)
    → a.bytes_sent_unique < u64_mod
    → ((loss_loop w m a).1).bytes_sent_unique ≡ (a.bytes_sent_unique + total_bytes m) % u64_mod
unfolding loss_loop total_bytes count_range
loss_loop_unique w [] a small = omega arith
loss_loop_unique w ((k, br) ∷ m) a small =
    let next = count_range w (match_range w br) a in
    omega (arith, loss_loop_unique w m next (omega arith), (match_range-SameCounts w br).0)

-- After a stream without gaps (ranges that hold it, as insert_sent_range-Holds says), behind a first range
-- without data, such as that of the SYN, the program has two counts of its unique bytes, and both are
-- the length of the stream: calculateRealLoss counts so many bytes as unique, and
-- getNumUniqueBytes returns it. The stream is not empty and ends below 2^64.
pub unique_bytes_agree :
    (w : Bool) (b k : ℕ) (br : ByteRange) (m : RangeMap) (rm : RangeManager)
    → Holds b rm
    → rm.ranges ≡ (k, br) ∷ m
    → br.byte_count ≡ 0
    → b < rm.last_seq
    → rm.last_seq < u64_mod
    → (((calculate_real_loss w rm.ranges new_analysis).1).bytes_sent_unique ≡ rm.last_seq - b)
      × (get_num_unique_bytes rm.ranges ≡ ok (rm.last_seq - b))
unfolding calculate_real_loss get_num_unique_bytes first_data
unique_bytes_agree w b k br m rm h e empty some_bytes word =
    let d : Disjoint 0 ((k, br) ∷ m) = subst (λ r. Disjoint 0 r) e h.in_order in
    let s : Spans b rm.last_seq ((k, br) ∷ m) = subst (λ r. Spans b rm.last_seq r) e h.exact in
    let whole = spanned 0 b rm.last_seq ((k, br) ∷ m) d s h.starts in
    let behind =
      spanned (beyond k br) b rm.last_seq m d.3 (empty_first 0 b rm.last_seq k br m d s empty)
        h.starts in
    let counted = loss_loop_unique w ((k, br) ∷ m) new_analysis (omega arith) in
    let no_data : (br.byte_count == 0) ≡ true = ground arith in
    rw e (
      omega (arith, counted, whole.0),
      rw (behind.2 some_bytes, no_data, behind.1 some_bytes) (ap ok (omega arith)),
    )
