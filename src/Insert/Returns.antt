-- ===== src/Insert/Returns.antt =====
-- The insertion of sent data by insertByteRange returns: none of its assertions fails and its depth of
-- recursion is enough, for segments of up to 1501 bytes.
use analyse_tcp.Prelude.{
  ℕ, zero, suc, ◌+◌, ◌-◌, ◌≤◌, ◌<◌, ◌≡◌, refl, Bool, true, false, ltb, ◌==◌, min, if◌then◌else◌,
  none, some, [], ◌∷◌, arith, Bool-cases, Option-cases, inl, inr, Result, ok, err, ◌>>=◌, ltb→lt,
  ==→eq,
}
use analyse_tcp.Words.{u64_mod}
use analyse_tcp.Range.{ByteRange, DataSeg, has_flag, th_fin, th_syn}
use analyse_tcp.Range.Split.{
  IsRange, right_part, split_end_lem, right_part-IsRange, update_byte_count_lem, new_byte_range_lem,
}
use analyse_tcp.RangeMap.{RangeMap, find, next, containing, up_to, from_before, is_empty}
use analyse_tcp.RangeMap.Order.{Disjoint, find-Disjoint, next-some}
use analyse_tcp.RangeMap.Cover.{covers}
use analyse_tcp.RangeMap.Search.{containing-window, containing-find, containing-none}
use analyse_tcp.Insert.Marks.{InsertType, this_is_rdb_data, mark_same, fill_range, new_sent_range}
use analyse_tcp.Insert.Steps.{
  Outcome, finished, more, split_off_end, split_middle, split_beyond, split_containing, insert_new,
  insert_not_found, fill_gap, insert_longer, insert_shorter, insert_found, insert_step,
  recursion_level,
}
use analyse_tcp.Insert.Progress.{Steps, After}
use analyse_tcp.Insert.Found.{insert_step-Steps}
use analyse_tcp.Insert.{insert_byte_range}

-- The call has a result.
abbrev pub Returns : {A : Type 0} → Result A → Type 0
Returns (ok a) = Unit {0}
Returns (err f) = ⊥

pub >>=-Returns :
    {A B : Type 0} (r : Result A) (f : A → Result B)
    → Returns r
    → ((a : A) → r ≡ ok a → Returns (f a))
    → Returns (r >>= f)
>>=-Returns (ok a) f h g = g a refl
>>=-Returns (err e) f h g = elim h [ ]

fill_range-Returns :
    (seg : DataSeg) (as_rdb whole : Bool) (end : ℕ) (br : ByteRange)
    → br.start_seq ≤ end
    → end < br.start_seq + 65535
    → end < u64_mod
    → Returns (fill_range seg as_rdb whole end br)
unfolding fill_range
fill_range-Returns seg as_rdb whole end br le short word =
    rw (update_byte_count_lem (record br { end_seq = end }) le short word) tt

new_sent_range-Returns :
    (seg : DataSeg) (as_rdb : Bool) (start end : ℕ)
    → start ≤ end
    → end < start + 65535
    → end < u64_mod
    → has_flag seg.flags th_syn ≡ false
    → Returns (new_sent_range seg as_rdb start end)
unfolding new_sent_range
new_sent_range-Returns seg as_rdb start end le short word no_syn =
    rw (new_byte_range_lem start end le short word, no_syn) tt

-- There is no range to search if no range holds the byte.
is_empty-containing : (at : ℕ) (m : RangeMap) → is_empty m ≡ true → containing at m ≡ none
unfolding containing
is_empty-containing at [] e = refl
is_empty-containing at (f ∷ m) e = ground arith

-- A segment with data that starts where the ranges cover, if it starts before the last sequence number.
module _ (seg : DataSeg) (level first last start end : ℕ) (m : RangeMap) (d : Disjoint 0 m)
    (nonempty : start < end) (short : end < start + 65535) (word : end < u64_mod)
    (no_syn : has_flag seg.flags th_syn ≡ false) where
  fill_gap-Returns :
      (br : ByteRange)
      → br.start_seq ≡ start
      → IsRange br
      → br.byte_count ≡ 0
      → Returns (fill_gap seg start end br m)
  unfolding fill_gap
  fill_gap-Returns br s r empty = elim (Option-cases (next start m)) [
    | inl n ↦
        let as_rdb = this_is_rdb_data seg start in
        rw (fill_gap, n)
          (>>=-Returns (fill_range seg as_rdb true end br) _
            (fill_range-Returns seg as_rdb true end br (omega arith) (omega arith) word)
            (λ v e. tt))
    | inr ((k, after), n) ↦
        let as_rdb = this_is_rdb_data seg start in
        let (sk, ks) = next-some start 0 k m after d n in
        let at = min after.start_seq end in
        let apart : (br.end_seq == after.start_seq) ≡ false = ground arith in
        rw (fill_gap, n, apart)
          (>>=-Returns (fill_range seg as_rdb true at br) _
            (fill_range-Returns seg as_rdb true at br (omega arith) (omega arith) (omega arith))
            (λ v e. tt))
  ]

  insert_found-Returns :
      (br : ByteRange)
      → find start m ≡ some br
      → level ≤ 1500
      → Returns (insert_found InsertType.insert_sent seg level first start end br m)
  unfolding insert_found insert_longer insert_shorter mark_same
  insert_found-Returns br found low =
      let (_, s, r) = find-Disjoint start 0 m br d found in
      elim (Bool-cases (br.end_seq == end)) [
        | inl h ↦ rw h tt
        | inr h ↦ rw h (elim (Bool-cases (ltb br.end_seq end)) [
          | inl l ↦ rw l (elim (Bool-cases (br.byte_count == 0)) [
            | inl z ↦ rw z (fill_gap-Returns br s r (==→eq _ _ z))
            | inr z ↦ let deep : ltb recursion_level level ≡ false = ground arith in rw (z, deep) tt
          ])
          | inr l ↦ rw (l, split_end_lem end br r (omega arith) (ground arith)) tt
        ])
      ]

  split_containing-Returns :
      (k : ℕ) (br : ByteRange)
      → find k m ≡ some br
      → k < start
      → start < br.end_seq
      → Returns (split_containing InsertType.insert_sent seg level start end k br m)
  unfolding split_containing split_off_end split_middle split_beyond
  split_containing-Returns k br found inside be =
      let (_, s, r) = find-Disjoint k 0 m br d found in
      let off : (br.start_seq == start) ≡ false = ground arith in
      let cut = split_end_lem start br r (omega arith) (omega arith) in
      let right = right_part-IsRange start br r (omega arith) (omega arith) in
      rw off (elim (Bool-cases (end == br.end_seq)) [
        | inl h ↦ rw (h, cut) tt
        | inr h ↦ rw h (elim (Bool-cases (ltb end br.end_seq)) [
          | inl l ↦
              let v : ByteRange = record (right_part start br) {
                fin = if has_flag seg.flags th_fin then 1 else 0;
              } in
              let vr : IsRange v = omega (arith, right) in
              rw (l, cut, split_end_lem end v vr (omega arith) (ground arith)) tt
          | inr l ↦ rw (l, cut) tt
        ])
      ])

  insert_new-Returns : Returns (insert_new InsertType.insert_sent seg start end m)
  unfolding insert_new
  insert_new-Returns =
      let as_rdb = this_is_rdb_data seg start in
      >>=-Returns (new_sent_range seg as_rdb start end) _
        (new_sent_range-Returns seg as_rdb start end (omega arith) short word no_syn) (λ v e. tt)

  insert_not_found-Returns :
      find start m ≡ none
      → (start < last → covers start m ≡ true)
      → Returns (insert_not_found InsertType.insert_sent seg level last start end m)
  unfolding insert_not_found
  insert_not_found-Returns absent covered =
      let window = containing-window start end 0 m d (omega arith) in
      let candidates = up_to end (from_before start m) in
      elim (Bool-cases (ltb start last)) [
        | inr h ↦ rw h insert_new-Returns
        | inl h ↦ elim (Option-cases (containing start m)) [
          | inl n ↦ ground (arith, covered (ltb→lt _ _ h), containing-none start m n)
          | inr ((k, br), there) ↦
              let (_, found, le, lt) = containing-find start 0 k m br d there in
              let (_, s, r) = find-Disjoint k 0 m br d found in
              let some_there : is_empty candidates ≡ false =
                elim (Bool-cases (is_empty candidates)) [
                  | inl e ↦ ground (arith, is_empty-containing start candidates e, window)
                  | inr e ↦ e
                ] in
              let inside : k < start = grind (arith) in
              rw (h, some_there, window, there) (split_containing-Returns k br found inside lt)
        ]
      ]

  insert_step-Returns :
      level ≤ 1500
      → (start < last → covers start m ≡ true)
      → Returns (insert_step InsertType.insert_sent seg first last level start end m)
  unfolding insert_step
  insert_step-Returns low covered =
      let differ : (start == end) ≡ false = ground arith in
      rw differ (elim (Option-cases (find start m)) [
        | inl n ↦ rw n (insert_not_found-Returns n covered)
        | inr (br, f) ↦ rw f (insert_found-Returns br f low)
      ])

-- A step that returns, and the call that follows it.
Steps-Returns :
    (t : InsertType) (level start end : ℕ) (m : RangeMap) (r : Result Outcome)
    (rest : ℕ → RangeMap → Result (RangeMap × Bool))
    → Returns r
    → Steps t level start end m ⊥ r
    → ((at : ℕ) (m' : RangeMap) → After t level start end m ⊥ (more m' at) → Returns (rest at m'))
    → Returns (
        r >>= λ o. elim o as (λ _. Result (RangeMap × Bool)) [
          | finished m' b ↦ ok (m', b)
          | more m' at ↦ rest at m'
        ])
Steps-Returns t level start end m (err f) rest u s h = u
Steps-Returns t level start end m (ok (finished m' b)) rest u s h = tt
Steps-Returns t level start end m (ok (more m' at)) rest u s h = h at m' s

-- A segment with data of at most 1501 bytes that ends below 2^64 and is no SYN, inserted as sent data into an
-- ordered map that covers what lies between its start and the last sequence number, if anything does:
-- with fuel for each of its bytes `insertByteRange` returns. It meets no assertion and not the
-- limit on the recursion.
pub insert_byte_range-Returns :
    (fuel : ℕ) (seg : DataSeg) (first last level start end : ℕ) (m : RangeMap)
    → end - start < fuel
    → start < end
    → end < u64_mod
    → level + (end - start) ≤ 1501
    → has_flag seg.flags th_syn ≡ false
    → Disjoint 0 m
    → ((x : ℕ) → start ≤ x → x < last → covers x m ≡ true)
    → Returns (insert_byte_range fuel InsertType.insert_sent seg first last level start end m)
unfolding insert_byte_range
insert_byte_range-Returns zero seg first last level start end m enough lt word low no_syn d
      covered =
    omega arith
insert_byte_range-Returns (suc fuel) seg first last level start end m enough lt word low no_syn d
      covered =
    Steps-Returns InsertType.insert_sent level start end m
      (insert_step InsertType.insert_sent seg first last level start end m)
      (λ at m'. insert_byte_range fuel InsertType.insert_sent seg first last (level + 1) at end m')
      (insert_step-Returns seg level first last start end m d lt (omega arith) word no_syn
        (omega arith) (λ l. covered start (omega arith) l))
      (insert_step-Steps InsertType.insert_sent seg level first last start end m ⊥ d lt
        (omega arith) word (λ f. elim f [ ]))
      (λ at m' (order, grows, up, sa, ae, moved).
        let further : start < at = ground (arith, moved) in
        insert_byte_range-Returns fuel seg first last (level + 1) at end m' (omega arith) ae word
          (omega arith) no_syn order
          (λ x ax xl. rw (grows x) (ground (arith, covered x (omega arith) xl))))
