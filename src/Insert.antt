-- ===== src/Insert.antt =====
-- `RangeManager::insertByteRange`: each branch as one step, which ends the insertion or names the byte
-- from which it goes on, and the recursion over the steps.
pub mod Marks
pub mod Steps
pub mod Kept
pub mod Progress
mod Branches
mod Found
pub mod Returns
pub mod Whole
mod Tests
pub use Marks.{InsertType, is_sent}
use Steps.{Outcome, finished, more, insert_step}
use analyse_tcp.Prelude.{ℕ, zero, suc, ◌+◌, Bool, Result, ok, err, Fault, ◌>>=◌}
use analyse_tcp.Range.{DataSeg}
use analyse_tcp.RangeMap.{RangeMap}

-- The map and what the call returns. `level` counts the calls of the recursion, from 0.
unfoldable pub insert_byte_range :
    ℕ → InsertType → DataSeg → ℕ → ℕ → ℕ → ℕ → ℕ → RangeMap → Result (RangeMap × Bool)
insert_byte_range zero itype seg first_seq last_seq level start_seq end_seq m =
    err Fault.out_of_fuel
insert_byte_range (suc fuel) itype seg first_seq last_seq level start_seq end_seq m = do
  o ← insert_step itype seg first_seq last_seq level start_seq end_seq m
  elim o as (λ _. Result (RangeMap × Bool)) [
    | finished m' b ↦ ok (m', b)
    | more m' at ↦ insert_byte_range fuel itype seg first_seq last_seq (level + 1) at end_seq m'
  ]
