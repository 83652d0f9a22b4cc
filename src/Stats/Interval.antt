-- ===== src/Stats/Interval.antt =====
-- `Connection::setAnalyseRangeInterval` of Connection.cc: which ranges are analysed. An iterator is the
-- position of its range.
use analyse_tcp.Prelude.{
  ℕ, zero, suc, ◌+◌, ◌-◌, ◌/◌, true, false, not, ◌==◌, if◌then◌else◌, Option, none, some, length,
  get_elem?, Result, ok, err, Fault, or_out_of_range, ◌>>=◌,
}
use analyse_tcp.Prelude.Int.{ℤ, pos, ◌+ℤ◌, leb_ℤ}
use analyse_tcp.Time.{Timeval, timersub}
use analyse_tcp.RangeMap.{RangeMap}

-- `GlobOpts`, in seconds; 0 is not given.
pub record IntervalOptions : Type 0 where
  pub analyse_start : ℕ
  pub analyse_end : ℕ
  pub analyse_duration : ℕ

pub record Interval : Type 0 where
  pub range_start : ℕ
  pub range_last : ℕ
  pub range_end : ℕ
  pub time_sec_start : ℤ
  pub time_sec_end : ℤ

-- `sent_tstamp_pcap[0].first` of the range at a position.
unfoldable pub sent_time : RangeMap → ℕ → Result Timeval
sent_time m i = do
  e ← or_out_of_range (get_elem? m i)
  t ← or_out_of_range (get_elem? e.1.sent_tstamp_pcap 0)
  ok t.0

-- The seconds from `from` to the time of the range at a position.
unfoldable pub elapsed : RangeMap → Timeval → ℕ → Result ℤ
elapsed m from i = do t ← sent_time m i; ok ((timersub t from).sec)

-- The search for the first range at or behind the start, `n` positions from `i` on.
unfoldable pub start_loop : RangeMap → Timeval → ℤ → ℕ → ℕ → Result (Option (ℕ × ℤ))
start_loop m first limit zero i = ok none
start_loop m first limit (suc n) i = do
  s ← elapsed m first i
  let rest = start_loop m first limit n (i + 1)
  if leb_ℤ limit s then ok (some (i, s)) else rest

-- The search from the last range backwards, the next one at position `n - 1`.
unfoldable pub end_loop : RangeMap → Timeval → ℤ → ℕ → Result (Option ℕ)
end_loop m last limit zero = ok none
end_loop m last limit (suc n) = do
  t ← sent_time m n
  let rest = end_loop m last limit n
  if leb_ℤ limit ((timersub last t).sec) then ok (some n) else rest

-- The search for the last range within the duration, by halves, from `it`, with the two indices.
unfoldable pub duration_loop : ℕ → RangeMap → Timeval → ℤ → ℕ → ℕ → ℕ → Result ℕ
duration_loop zero m begin_tv limit it start_index end_index = err Fault.out_of_fuel
duration_loop (suc fuel) m begin_tv limit it start_index end_index =
    let advance = (end_index - start_index) / 2 in
    elim (advance == 0) as (λ _. Result ℕ) [
      | true ↦ ok it
      | false ↦ do
        s ← elapsed m begin_tv (it + advance)
        elim (leb_ℤ s limit) as (λ _. Result ℕ) [
          | true ↦
              duration_loop fuel m begin_tv limit (it + advance) (start_index + advance) end_index
          | false ↦ duration_loop fuel m begin_tv limit it start_index (end_index - advance)
        ]
    ]

-- The start of the interval, and the index that goes with it: all the ranges, if none is found.
unfoldable pub set_start : IntervalOptions → RangeMap → Timeval → Interval → Result (Interval × ℕ)
set_start opts m first v = if opts.analyse_start == 0 then ok (v, 0) else (do
  found ← start_loop m first (pos opts.analyse_start) (length m) 0
  ok (elim found as (λ _. Interval × ℕ) [
    | none ↦ (v, length m)
    | some r ↦ (record v { range_start = r.0; time_sec_start = r.1 }, r.0)
  ]))

-- The end of the interval: by the time from the end of the trace, or by the duration.
unfoldable pub set_end :
    IntervalOptions → RangeMap → Timeval → Timeval → Interval → ℕ → Result Interval
set_end opts m first last v start_index =
    if not (opts.analyse_end == 0)
    then (do
      found ← end_loop m last (pos opts.analyse_end) (length m)
      elim found as (λ _. Result Interval) [
        | none ↦ ok v
        | some i ↦ if i + 1 == length m then err Fault.out_of_range else (do
          s ← elapsed m first i
          ok (record v { range_last = i + 1; range_end = i + 2; time_sec_end = s }))
      ])
    else if opts.analyse_duration == 0
    then ok v
    else (do
      begin_tv ← sent_time m v.range_start
      it ←
          duration_loop (suc (length m)) m begin_tv (pos opts.analyse_duration) v.range_start
            start_index (length m)
      ok (record v {
        range_last = it;
        range_end = it + 1;
        time_sec_end = v.time_sec_start +ℤ pos opts.analyse_duration;
      }))

-- `setAnalyseRangeInterval`
unfoldable pub set_analyse_range_interval : IntervalOptions → RangeMap → Result Interval
set_analyse_range_interval opts m = do
  first ← sent_time m 0
  last ← sent_time m (length m - 1)
  r ← set_start opts m first (record {
    range_start = 0;
    range_last = length m - 1;
    range_end = length m;
    time_sec_start = pos opts.analyse_start;
    time_sec_end = (timersub last first).sec;
  })
  set_end opts m first last r.0 r.1
