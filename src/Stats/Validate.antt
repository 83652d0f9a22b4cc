-- ===== src/Stats/Validate.antt =====
-- `RangeManager::validateContent` of RangeManager.cc, as the tests that it makes: each one that fails prints a
-- warning. The counts of times that it prints only are left out.
use analyse_tcp.Prelude.{
  ℕ, ◌+◌, Bool, true, ◌&&◌, ◌||◌, leb, ◌==◌, if◌then◌else◌, Option, none, some, [], ◌∷◌, Result, ok,
  err, Fault,
}
use analyse_tcp.Words.{add64, sub64}
use analyse_tcp.RangeMap.{RangeMap}
use analyse_tcp.Conn.{Connection}

-- What validateContent finds: whether the first range starts at 0, the last one ends at the last sequence
-- number or one before it, and the bytes add up; and the number of gaps.
pub record Validation : Type 0 where
  pub first_aligned : Bool
  pub last_aligned : Bool
  pub bytes_add_up : Bool
  pub gaps : ℕ

-- The loop over the ranges behind the first one, from the end of the one before, with the size of the
-- one before if that is not the first.
unfoldable pub gap_loop : ℕ → Option ℕ → RangeMap → ℕ
gap_loop tmp_end_seq prev [] = 0
gap_loop tmp_end_seq prev ((k, br) ∷ m) =
    let rest = gap_loop br.end_seq (some br.byte_count) m in
    let no_data_before = elim prev as (λ _. Bool) [ none ↦ true | some n ↦ n == 0 ] in
    if br.start_seq == tmp_end_seq || no_data_before || br.byte_count == 0 then rest else 1 + rest

-- The end of the last range, `rbegin()`.
unfoldable pub last_end : ℕ → RangeMap → ℕ
last_end end [] = end
last_end end ((k, br) ∷ m) = last_end br.end_seq m

-- `validateContent`, less its counts of the ranges with a send time and an ack time, which it only prints
-- (`getSendTime` takes the address of an element).
unfoldable pub validate_content : Connection → Result Validation
validate_content c = elim c.rm.ranges as (λ _. Result Validation) [
  | [] ↦ err Fault.out_of_range
  | (e ∷ m) ↦
      let end = last_end e.1.end_seq m in
      ok (record {
        first_aligned = e.1.start_seq == 0;
        last_aligned = leb end c.rm.last_seq && leb (sub64 c.rm.last_seq 1) end;
        bytes_add_up =
            c.tot_bytes_sent
            == add64 (add64 c.tot_new_data_sent c.tot_rdb_bytes_sent) c.tot_retrans_bytes_sent;
        gaps = gap_loop e.1.end_seq none m;
      })
]
