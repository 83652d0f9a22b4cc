-- ===== src/Insert/Whole.antt =====
-- The recursion of insertByteRange as a whole: it ends, keeps the order of the ranges, and adds exactly
-- the bytes of the segment to those that the ranges cover.
use analyse_tcp.Prelude.{
  ℕ, zero, suc, ◌+◌, ◌-◌, ◌≤◌, ◌<◌, ◌≡◌, Bool, true, max, arith, inl, inr, Result, ok, err, ◌>>=◌,
}
use analyse_tcp.Words.{u64_mod}
use analyse_tcp.Range.{DataSeg}
use analyse_tcp.RangeMap.{RangeMap}
use analyse_tcp.RangeMap.Order.{Disjoint}
use analyse_tcp.RangeMap.Cover.{covers}
use analyse_tcp.RangeMap.Search.{containing-none}
use analyse_tcp.RangeMap.Pieces.{top, top-Room}
use analyse_tcp.Insert.{insert_byte_range}
use analyse_tcp.Insert.Marks.{InsertType, is_sent}
use analyse_tcp.Insert.Steps.{Outcome, finished, more, insert_step}
use analyse_tcp.Insert.Progress.{IsProgramFault, Grows, Steps, After}
use analyse_tcp.Insert.Branches.{HasRoom}
use analyse_tcp.Insert.Found.{insert_step-Steps}

-- The ranges leave no gap from `start` on.
abbrev pub NoGap : ℕ → RangeMap → Type 0
NoGap start m = (x : ℕ) → start ≤ x → x < top m → covers x m ≡ true

-- Sent data is inserted where the ranges have no gap, and `last_seq` is behind them.
abbrev pub Ready : InsertType → ℕ → ℕ → RangeMap → Type 0
Ready t last start m = is_sent t ≡ true → NoGap start m × (top m ≤ max last start)

-- What an insertion leaves: either a fault of the program, or an ordered map that covers what was
-- covered before and, if the data is sent data, the segment.
abbrev pub Inserted : InsertType → ℕ → ℕ → RangeMap → Result (RangeMap × Bool) → Type 0
Inserted t start end m (ok (m', b)) =
    Disjoint 0 m' × Grows t start end m m' × (top m' ≤ max (top m) end)
Inserted t start end m (err f) = IsProgramFault f

Ready-HasRoom :
    (t : InsertType) (last start end : ℕ) (m : RangeMap)
    → Disjoint 0 m
    → Ready t last start m
    → HasRoom t last start end m
Ready-HasRoom t last start end m d ready s absent where_to =
    let (whole, up) = ready s in
    let behind : top m ≤ start = elim where_to [
      | inr h ↦ omega arith
      | inl h ↦ ground (arith, whole start, containing-none start m h)
    ] in
    top-Room start end 0 m d behind absent

Ready-more :
    (t : InsertType) (last start at : ℕ) (m m' : RangeMap)
    → Ready t last start m
    → Grows t start at m m'
    → top m' ≤ max (top m) at
    → start ≤ at
    → Ready t last at m'
Ready-more t last start at m m' ready grows up le s =
    let (whole, behind) = ready s in
    ((λ x ax xt. rw (grows x) (ground (arith, whole x (omega arith) (omega arith)))), omega arith)

Inserted-more :
    (t : InsertType) (start at end : ℕ) (m m' : RangeMap) (r : Result (RangeMap × Bool))
    → start ≤ at
    → at < end
    → Grows t start at m m'
    → top m' ≤ max (top m) at
    → Inserted t at end m' r
    → Inserted t start end m r
Inserted-more t start at end m m' (err f) sa ae g up i = i
Inserted-more t start at end m m' (ok (m'', b)) sa ae g up (order, h, le) =
    (order, (λ x. ground (arith, h x, g x)), omega arith)

-- A step, and what the call that follows it leaves.
Steps-Inserted :
    (t : InsertType) (level start end : ℕ) (m : RangeMap) (r : Result Outcome)
    (rest : ℕ → RangeMap → Result (RangeMap × Bool))
    → Steps t level start end m (Unit {0}) r
    → ((at : ℕ) (m' : RangeMap)
        → After t level start end m (Unit {0}) (more m' at)
        → Inserted t at end m' (rest at m'))
    → Inserted t start end m (
        r >>= λ o. elim o as (λ _. Result (RangeMap × Bool)) [
          | finished m' b ↦ ok (m', b)
          | more m' at ↦ rest at m'
        ])
Steps-Inserted t level start end m (err f) rest s h = s
Steps-Inserted t level start end m (ok (finished m' b)) rest s h = s tt
Steps-Inserted t level start end m (ok (more m' at)) rest s h =
    let (order, grows, up, sa, ae, moved) = s in
    Inserted-more t start at end m m' (rest at m') sa ae grows up (h at m' s)

-- With fuel for each byte of the segment and for the levels up to 1502, the insertion of a segment with
-- data into an ordered map ends: in a result, or in a fault of the program. The segment is shorter than
-- 65535 bytes and ends below 2^64; sent data starts where the ranges leave no gap behind it and the
-- last sequence number is behind them. The map that results is ordered, without overlaps, and
-- it covers the bytes that it covered before and, for sent data, those of the segment, and no others.
-- What was received and what entered the kernel changes no byte that is covered.
pub insert_byte_range-Inserted :
    (fuel : ℕ) (t : InsertType) (seg : DataSeg) (first last level start end : ℕ) (m : RangeMap)
    → (end - start) + (1502 - level) < fuel
    → start < end
    → end < start + 65535
    → end < u64_mod
    → Disjoint 0 m
    → Ready t last start m
    → Inserted t start end m (insert_byte_range fuel t seg first last level start end m)
unfolding insert_byte_range
insert_byte_range-Inserted zero t seg first last level start end m enough lt short word d ready =
    omega arith
insert_byte_range-Inserted (suc fuel) t seg first last level start end m enough lt short word d
      ready =
    let room : HasRoom t last start end m = Ready-HasRoom t last start end m d ready in
    Steps-Inserted t level start end m (insert_step t seg first last level start end m)
      (λ at m'. insert_byte_range fuel t seg first last (level + 1) at end m')
      (insert_step-Steps t seg level first last start end m (Unit {0}) d lt short word (λ u. room))
      (λ at m' (order, grows, up, sa, ae, moved).
        insert_byte_range-Inserted fuel t seg first last (level + 1) at end m' (omega arith) ae
          (omega arith) word order (Ready-more t last start at m m' ready grows up sa))
