-- ===== src/Insert/Branches.antt =====
-- One step of insertByteRange on a segment with data, over all its branches.
use analyse_tcp.Prelude.{
  ℕ, ◌+◌, ◌≤◌, ◌<◌, ◌≡◌, refl, true, false, ltb, ◌==◌, if◌then◌else◌, none, some, arith, Bool-cases,
  Option-cases, inl, inr, ◌⊎◌, ltb→lt, ==→eq,
}
use analyse_tcp.Words.{u64_mod}
use analyse_tcp.Range.{ByteRange, DataSeg}
use analyse_tcp.RangeMap.{RangeMap, find, containing, up_to, from_before, is_empty}
use analyse_tcp.RangeMap.Order.{Disjoint, Room, find-Disjoint, insert-Disjoint}
use analyse_tcp.RangeMap.Cover.{covers-insert}
use analyse_tcp.RangeMap.Search.{containing-window, containing-find}
use analyse_tcp.RangeMap.Pieces.{top-insert}
use analyse_tcp.Insert.Marks.{InsertType, is_sent, this_is_rdb_data, new_sent_range}
use analyse_tcp.Insert.Kept.{new_sent_range_lem}
use analyse_tcp.Insert.Steps.{
  split_off_end, split_middle, split_beyond, split_containing, insert_new, insert_not_found,
}
use analyse_tcp.Insert.Progress.{
  Steps, bind-Steps, split_off_end-Steps, split_beyond-Steps, split_middle-Steps,
  sojourn_inside-Steps, new_sent_range-NoFuel,
}

-- There is room for the segment where it is not found.
abbrev pub HasRoom : InsertType → ℕ → ℕ → ℕ → RangeMap → Type 0
HasRoom t last start end m =
    is_sent t ≡ true
    → find start m ≡ none
    → (containing start m ≡ none) ⊎ (last ≤ start)
    → Room start end m

module _ (t : InsertType) (seg : DataSeg) (level first last start end : ℕ) (m : RangeMap)
    (d : Disjoint 0 m) (nonempty : start < end) where
  pub split_containing-Steps :
      (Q : Type 0) (k : ℕ) (br : ByteRange)
      → find k m ≡ some br
      → k < start
      → start < br.end_seq
      → Steps t level start end m Q (split_containing t seg level start end k br m)
  unfolding split_containing
  split_containing-Steps Q k br found inside be =
      let (_, s, r) = find-Disjoint k 0 m br d found in
      let split_other : (t : InsertType)
          → Steps t level start end m Q (
              if end == br.end_seq
              then split_off_end t seg level start k br m
              else if ltb end br.end_seq
              then split_middle t seg level start end k br m
              else split_beyond t seg level start k br m) =
        λ t. elim (Bool-cases (end == br.end_seq)) [
          | inl h ↦ rw h (
              split_off_end-Steps t seg level start end m Q d nonempty k br found inside be
                (==→eq _ _ h))
          | inr h ↦ rw h (elim (Bool-cases (ltb end br.end_seq)) [
            | inl l ↦ rw l (
                split_middle-Steps t seg level start end m Q d nonempty k br found inside be
                  (ltb→lt _ _ l))
            | inr l ↦ rw l (
                split_beyond-Steps t seg level start end m Q d nonempty k br found inside be
                  (ground arith))
          ])
        ] in
      let off : (br.start_seq == start) ≡ false = ground arith in
      elim t
        as (λ t'. Steps t' level start end m Q (split_containing t' seg level start end k br m)) [
          | InsertType.insert_sojourn ↦
              sojourn_inside-Steps InsertType.insert_sojourn seg level start end m Q d nonempty k br
                found inside be
          | InsertType.insert_sent ↦ rw off (split_other InsertType.insert_sent)
          | InsertType.insert_recv ↦ rw off (split_other InsertType.insert_recv)
        ]

  pub insert_new-Steps :
      (Q : Type 0)
      → (Q → is_sent t ≡ true → Room start end m)
      → end < start + 65535
      → end < u64_mod
      → Steps t level start end m Q (insert_new t seg start end m)
  unfolding insert_new
  insert_new-Steps Q room short word =
      elim t
          as (λ t'.
            (Q → is_sent t' ≡ true → Room start end m)
            → Steps t' level start end m Q (insert_new t' seg start end m)) [
              | InsertType.insert_recv ↦ λ h q. (d, (λ x. ground arith), omega arith)
              | InsertType.insert_sojourn ↦ λ h q. (d, (λ x. ground arith), omega arith)
              | InsertType.insert_sent ↦ λ h.
                  bind-Steps InsertType.insert_sent seg level start end m Q d nonempty
                    (new_sent_range seg (this_is_rdb_data seg start) start end) _
                    (new_sent_range-NoFuel seg (this_is_rdb_data seg start) start end)
                    (λ br e q.
                      let (s, f, r) =
                        new_sent_range_lem seg (this_is_rdb_data seg start) start end br
                          (omega arith) short word e in
                      let room' : Room start br.end_seq m = rw f (h q refl) in
                      (
                        insert-Disjoint start 0 m br d (omega arith) s r room',
                        (λ x. ground (arith, covers-insert x start end 0 m br (h q refl))),
                        omega (arith, top-insert start br m),
                      ))
            ]
        room

  pub insert_not_found-Steps :
      (Q : Type 0)
      → (Q → HasRoom t last start end m)
      → find start m ≡ none
      → end < start + 65535
      → end < u64_mod
      → Steps t level start end m Q (insert_not_found t seg level last start end m)
  unfolding insert_not_found
  insert_not_found-Steps Q room absent short word =
      let window = containing-window start end 0 m d (omega arith) in
      elim (Bool-cases (ltb start last)) [
        | inr h ↦ rw h (insert_new-Steps Q (λ q s. room q s absent (inr (ground arith))) short word)
        | inl h ↦ rw h (elim (Bool-cases (is_empty (up_to end (from_before start m)))) [
          | inl e ↦ rw e tt
          | inr e ↦
              rw (e, window)
                (elim (Option-cases (containing start m)) [
                  | inl none_there ↦
                      let new =
                        insert_new-Steps Q (λ q s. room q s absent (inl none_there)) short word in
                      rw none_there new
                  | inr ((k, br), there) ↦
                      let (_, found, le, lt) = containing-find start 0 k m br d there in
                      let (_, s, r) = find-Disjoint k 0 m br d found in
                      let inside : k < start = grind (arith) in
                      rw there (split_containing-Steps Q k br found inside lt)
                ])
        ])
      ]
