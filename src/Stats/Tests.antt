-- ===== src/Stats/Tests.antt =====
-- Runs of the statistics.
use analyse_tcp.Prelude.{
  zero, suc, ◌+◌, ◌≤◌, ℕ, ◌-◌, ◌<◌, ◌≡◌, refl, true, false, List, ◌*◌, ◌/◌, err, Fault, [], ◌∷◌,
  ◌++◌, length, ok, arith,
}
use analyse_tcp.Words.{u32_mod}
use analyse_tcp.Time.{zero_time, timersub}
use analyse_tcp.Range.{ByteRange, SentType, increase_sent}
use analyse_tcp.Range.Split.{fresh_range, fresh_range-IsRange}
use analyse_tcp.RangeMap.{RangeMap}
use analyse_tcp.RangeMap.Cover.{covers}
use analyse_tcp.RangeMap.Pieces.{top}
use analyse_tcp.Manager.{RangeManager, new_range_manager}
use analyse_tcp.Manager.Stream.{Holds}
use analyse_tcp.Stats.{BaseStats, new_stats, add_to_aggregate, make_stats}
use analyse_tcp.Stats.Tally.{
  sum, least, greatest, Tally, made, add_all, add_all-Tally, add_to_aggregate-Tally,
  new_stats-Tally,
}
use analyse_tcp.Stats.Loss.{new_analysis, calculate_real_loss, get_num_unique_bytes}
use analyse_tcp.Stats.Unique.{unique_bytes_agree}
use analyse_tcp.Prelude.Int.{ℤ, pos, ◌-ℤ◌, leb_ℤ}
use analyse_tcp.Stats.Interval.{elapsed, sent_time, duration_loop}
use analyse_tcp.Stats.Bisect.{duration_loop_last}
use analyse_tcp.Conn.{Connection, new_connection}
use analyse_tcp.Stats.Validate.{validate_content}
use analyse_tcp.Stats.Valid.{validate_content_passes}

add_all-Tally_example :
    (st : BaseStats) × (add_all (5 ∷ 3 ∷ []) (new_stats false) ≡ ok st)
    × Tally (5 ∷ 3 ∷ []) st
    × (length {A = ℕ} (5 ∷ 3 ∷ []) < u32_mod
        → (places : List (ℕ → ℕ)) → make_stats places st ≡ made places 2 st)
add_all-Tally_example = add_all-Tally (5 ∷ 3 ∷ []) (omega arith, (omega arith, tt))

abbrev two_values : BaseStats
two_values = record {
  is_aggregate = false;
  counter = 2;
  min_value = 3;
  max_value = 5;
  cum = 8;
  valid = true;
  values = 5 ∷ 3 ∷ [];
}

two_values-Tally : Tally (5 ∷ 3 ∷ []) two_values
unfolding sum least greatest
two_values-Tally = record {
  listed = refl;
  counted = refl;
  summed = refl;
  lower = refl;
  upper = refl;
  usable = refl;
}

add_to_aggregate-Tally_example :
    (st : BaseStats) × (add_to_aggregate two_values (new_stats true) ≡ ok st)
    × Tally ([] ++ 5 ∷ 3 ∷ []) st
    × (st.is_aggregate ≡ true)
add_to_aggregate-Tally_example =
    add_to_aggregate-Tally [] (5 ∷ 3 ∷ []) (new_stats true) two_values (new_stats-Tally true)
      two_values-Tally refl

-- The range of a SYN, and ten bytes in two ranges.
abbrev after_syn : RangeMap
after_syn = (1, fresh_range 1 6) ∷ (6, fresh_range 6 11) ∷ []

abbrev with_syn : RangeManager
with_syn = record (new_range_manager 1000) {
  ranges = (0, fresh_range 0 0) ∷ after_syn;
  last_seq = 11;
}

with_syn-Holds : Holds 1 with_syn
unfolding covers top
with_syn-Holds = record {
  in_order = (
    omega arith,
    refl,
    fresh_range-IsRange 0 0 (omega arith) (omega arith) (omega arith),
    (
      omega arith,
      refl,
      fresh_range-IsRange 1 6 (omega arith) (omega arith) (omega arith),
      (omega arith, refl, fresh_range-IsRange 6 11 (omega arith) (omega arith) (omega arith), tt),
    ),
  );
  exact = λ x. ground arith;
  ends = omega arith;
  starts = omega arith;
}

unique_bytes_agree_example :
    (((calculate_real_loss true with_syn.ranges new_analysis).1).bytes_sent_unique ≡ 11 - 1)
    × (get_num_unique_bytes with_syn.ranges ≡ ok (11 - 1))
unique_bytes_agree_example =
    unique_bytes_agree true 1 0 (fresh_range 0 0) after_syn with_syn with_syn-Holds refl refl
      (omega arith) (omega arith)

-- A connection that sent the ten bytes.
abbrev with_data : Connection
with_data = record (new_connection 1000) {
  tot_bytes_sent = 10;
  tot_new_data_sent = 10;
  last_largest_end_seq = 11;
  rm = with_syn;
}

validate_content_passes_example :
    validate_content with_data
    ≡ ok (record { first_aligned = true; last_aligned = true; bytes_add_up = true; gaps = 0 })
validate_content_passes_example =
    validate_content_passes 1 with_data (fresh_range 0 0) after_syn
      (record { holds = with_syn-Holds; same_end = refl; not_closed = refl })
      (record { balanced = refl; word = omega arith }) refl refl (omega arith) (omega arith)
      (omega arith)

-- Three ranges, sent at 0, 4 and 9 seconds.
abbrev sent_at : ℕ → ℕ → ByteRange
sent_at s seq =
    increase_sent 5 1 (record { sec = pos s; usec = pos 0 }) false SentType.st_pkt
      (fresh_range seq (seq + 5))

abbrev three_ranges : RangeMap
three_ranges = (0, sent_at 0 0) ∷ (5, sent_at 4 5) ∷ (10, sent_at 9 10) ∷ []

abbrev seconds : ℕ → ℤ
seconds zero = pos 0
seconds (suc zero) = pos 4
seconds (suc (suc i)) = pos 9

three_ranges_sent : (i : ℕ) → i < 3 → elapsed three_ranges zero_time i ≡ ok (seconds i)
unfolding elapsed sent_time increase_sent timersub ◌-ℤ◌
three_ranges_sent zero h = refl
three_ranges_sent (suc zero) h = refl
three_ranges_sent (suc (suc zero)) h = refl
three_ranges_sent (suc (suc (suc i))) h = let none_left : ⊥ = omega arith in elim none_left [ ]

seconds_sorted :
    (i j : ℕ) → i ≤ j → j < 3 → leb_ℤ (seconds j) (pos 5) ≡ true → leb_ℤ (seconds i) (pos 5) ≡ true
seconds_sorted zero j le lt h = refl
seconds_sorted (suc zero) j le lt h = refl
seconds_sorted (suc (suc i)) zero le lt h = let none_left : ⊥ = omega arith in elim none_left [ ]
seconds_sorted (suc (suc i)) (suc zero) le lt h =
    let none_left : ⊥ = omega arith in elim none_left [ ]
seconds_sorted (suc (suc i)) (suc (suc j)) le lt h = h

duration_loop_last_example :
    (i : ℕ) × (duration_loop 4 three_ranges zero_time (pos 5) 0 0 3 ≡ ok i)
    × (0 ≤ i)
    × (i < 3)
    × (leb_ℤ (seconds i) (pos 5) ≡ true)
    × ((j : ℕ) → i < j → j < 3 → leb_ℤ (seconds j) (pos 5) ≡ false)
duration_loop_last_example =
    duration_loop_last three_ranges zero_time (pos 5) seconds 3 three_ranges_sent seconds_sorted 4 0
      3 (omega arith) (omega arith) (omega arith) refl
      (λ j lo hi. let none_left : ⊥ = omega arith in elim none_left [ ])

-- The place of the 99th percentile of two values is behind them.
no_place : made ((λ n. (n * 99 + 99) / 100) ∷ []) 2 two_values ≡ err Fault.out_of_range
no_place = refl
