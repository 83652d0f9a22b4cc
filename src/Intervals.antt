-- ===== src/Intervals.antt =====
-- Quantities that are grouped by intervals of time: `intervalIdx` of RangeManager.cc, the vectors of
-- buckets that its callers grow up to an index, and `LossInterval` of statistics_common.h.
pub mod Buckets
pub mod Loss
pub mod Sizes
mod Throughput
mod Tests
pub mod Grouped
mod Totals
use analyse_tcp.Prelude.{ℕ, ◌+◌, ◌-◌, ◌/◌, ◌==◌, if◌then◌else◌, Result, ok, err, Fault}
use analyse_tcp.Prelude.Int.{ℤ, pos, negsuc, ◌-ℤ◌}
use analyse_tcp.Words.{u64_mod}
use analyse_tcp.Time.{Timeval, get_msecs}

-- `(uint64_t)` of a `long`.
abbrev pub to_u64 : ℤ → ℕ
to_u64 (pos n) = n
to_u64 (negsuc n) = u64_mod - 1 - n

-- `intervalIdx`. The option parser takes no length of 0; a time before `first` wraps around.
unfoldable pub interval_idx : ℕ → ℤ → Timeval → ℕ
interval_idx length_ms first ts = to_u64 (get_msecs ts -ℤ first) / length_ms

-- `LossInterval`: its doubles are whole numbers.
pub record LossInterval : Type 0 where
  pub cnt_bytes : ℕ
  pub all_bytes : ℕ
  pub new_bytes : ℕ
  pub tot_cnt_bytes : ℕ
  pub tot_all_bytes : ℕ
  pub tot_new_bytes : ℕ

-- The constructor.
abbrev pub loss_interval : ℕ → ℕ → ℕ → LossInterval
loss_interval ranges all_bytes new_bytes = record {
  cnt_bytes = ranges;
  all_bytes = all_bytes;
  new_bytes = new_bytes;
  tot_cnt_bytes = 0;
  tot_all_bytes = 0;
  tot_new_bytes = 0;
}

-- `operator+=`
abbrev pub add_loss : LossInterval → LossInterval → LossInterval
add_loss rhs v = record v {
  cnt_bytes = v.cnt_bytes + rhs.cnt_bytes;
  all_bytes = v.all_bytes + rhs.all_bytes;
  new_bytes = v.new_bytes + rhs.new_bytes;
}

-- `addTotal`
abbrev pub add_total : ℕ → ℕ → ℕ → LossInterval → LossInterval
add_total ranges all_bytes new_bytes v = record v {
  tot_cnt_bytes = v.tot_cnt_bytes + ranges;
  tot_all_bytes = v.tot_all_bytes + all_bytes;
  tot_new_bytes = v.tot_new_bytes + new_bytes;
}
