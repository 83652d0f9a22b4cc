-- ===== src/Intervals/Totals.antt =====
-- `calculateLossGroupedByInterval` as a whole: what it leaves in the intervals of the connection and of all
-- connections.
use analyse_tcp.Prelude.{ℕ, ◌<◌, ◌≡◌, ltb, if◌then◌else◌, List, length}
use analyse_tcp.Prelude.Int.{ℤ}
use analyse_tcp.RangeMap.{RangeMap}
use analyse_tcp.Intervals.{LossInterval, add_loss, add_total}
use analyse_tcp.Intervals.Buckets.{get_or}
use analyse_tcp.Intervals.Loss.{Total, no_total, no_loss, lost_times}
use analyse_tcp.Intervals.Grouped.{max_over, extent, sent_in, lost_in}

abbrev pub with_total : Total → LossInterval → LossInterval
with_total t = add_total t.count t.bytes t.new_bytes

-- What each interval of the connection has, and each one of all connections.
abbrev Own : List Total → List LossInterval → List LossInterval → Type 0
Own totals loss r =
    (i : ℕ)
    → i < length loss
    → get_or r i no_loss ≡ with_total (get_or totals i no_total) (get_or loss i no_loss)

abbrev Joint : List Total → List LossInterval → List LossInterval → List LossInterval → Type 0
Joint totals all_loss loss r =
    (i : ℕ)
    → get_or r i no_loss ≡ (
        if ltb i (length loss)
        then with_total (get_or totals i no_total)
            (add_loss (get_or loss i no_loss) (get_or all_loss i no_loss))
        else get_or all_loss i no_loss)

record Set (totals : List Total) (all_loss loss : List LossInterval)
    (r : List LossInterval × List LossInterval) : Type 0 where
  size : length r.1 ≡ length loss
  own : Own totals loss r.1
  joint : Joint totals all_loss loss r.0

module _ (length_ms : ℕ) (first : ℤ) where
  -- The interval `i` has what was sent and lost in it, up to the last interval with a loss; the intervals of
  -- all connections are increased by that.
  pub record IsGrouped (m : RangeMap) (all_loss : List LossInterval)
      (r : List LossInterval × List LossInterval) : Type 0 where
    pub size : length r.1 ≡ max_over (λ br. extent length_ms first (lost_times br)) m
    pub own :
        (i : ℕ)
        → i < length r.1
        → get_or r.1 i no_loss
          ≡ with_total (sent_in length_ms first i m) (lost_in length_ms first i m)
    pub joint :
        (i : ℕ)
        → get_or r.0 i no_loss ≡ (
            if ltb i (length r.1)
            then with_total
                (sent_in length_ms first i m)
                (add_loss (lost_in length_ms first i m) (get_or all_loss i no_loss))
            else get_or all_loss i no_loss)
