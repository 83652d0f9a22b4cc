-- ===== src/Stats.antt =====
-- `BaseStats` of statistics_common.h and statistics_common.cc: the count, the bounds, the sum and the list
-- of the values of one quantity. The values are held as `double`, which is exact below 2^53: larger ones are
-- not modelled. Their order behind `std::sort` is not either: only percentiles are read by it.
pub mod Tally
pub mod Loss
mod Unique
mod Matched
pub mod Interval
mod Bisect
pub mod Validate
mod Valid
pub mod Totals
mod Tests
use analyse_tcp.Prelude.{
  ℕ, ◌+◌, ◌%◌, Bool, true, false, not, ◌==◌, if◌then◌else◌, min, max, List, [], ◌∷◌, ◌++◌, length,
  get_elem?, Result, ok, assert, or_out_of_range, ◌>>=◌, ◌>>◌,
}
use analyse_tcp.Words.{add32, add64, u32_mod, invalid_seq}

pub record BaseStats : Type 0 where
  pub is_aggregate : Bool
  pub counter : ℕ
  pub min_value : ℕ
  pub max_value : ℕ
  pub cum : ℕ
  pub valid : Bool
  pub values : List ℕ

-- The constructor, with `init`.
abbrev pub new_stats : Bool → BaseStats
new_stats is_aggregate = record {
  is_aggregate = is_aggregate;
  counter = 0;
  min_value = invalid_seq;
  max_value = 0;
  cum = 0;
  valid = true;
  values = [];
}

-- `add`
unfoldable pub add : ℕ → BaseStats → Result BaseStats
add val st = do
  assert (not st.is_aggregate)
  assert st.valid
  ok (record st {
    counter = add32 st.counter 1;
    min_value = min st.min_value val;
    max_value = max st.max_value val;
    cum = add64 st.cum val;
    values = st.values ++ val ∷ [];
  })

-- `add_to_aggregate`; statistics that are not valid are skipped.
unfoldable pub add_to_aggregate : BaseStats → BaseStats → Result BaseStats
add_to_aggregate rhs st = do
  assert st.is_aggregate
  assert st.valid
  ok (
      if not rhs.valid then st else record st {
        min_value = min st.min_value rhs.min_value;
        max_value = max st.max_value rhs.max_value;
        cum = add64 st.cum rhs.cum;
        values = st.values ++ rhs.values;
        counter = add32 st.counter (length rhs.values % u32_mod);
      })

-- `Percentiles::compute`, less the values that it stores: for each percentile that is asked for, the place in
-- the sorted values that is read, as it follows from their number (`(int) ceil(n * (num / 100.0))`).
unfoldable pub compute_percentiles : List (ℕ → ℕ) → List ℕ → Result (Unit {0})
compute_percentiles [] vs = ok tt
compute_percentiles (place ∷ places) vs = do
  value ← or_out_of_range (get_elem? vs (place (length vs)))
  compute_percentiles places vs

-- What `makeStats` does besides its floating-point results: statistics without values are not valid
-- afterwards, the counter has to agree with the number of values, and the percentiles are read.
unfoldable pub make_stats : List (ℕ → ℕ) → BaseStats → Result BaseStats
make_stats places st =
    if length st.values == 0
    then ok (record st { valid = false })
    else (do assert (length st.values == st.counter); compute_percentiles places st.values; ok st)
