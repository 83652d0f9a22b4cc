-- ===== src/Intervals/Loss.antt =====
-- `RangeManager::calculateLossGroupedByInterval` of RangeManager.cc, on the ranges that are analysed. Its
-- doubles are whole numbers, and its three vectors of totals, which grow together, are one of triples.
use analyse_tcp.Prelude.{
  ℕ, ◌+◌, Bool, ◌==◌, if◌then◌else◌, List, [], ◌∷◌, map, length, get_elem?, Result, ok, err, Fault,
  assert, or_out_of_range, ◌>>=◌, ◌>>◌,
}
use analyse_tcp.Prelude.Int.{ℤ}
use analyse_tcp.Time.{Timeval, timeval_eq}
use analyse_tcp.Range.{ByteRange}
use analyse_tcp.RangeMap.{RangeMap}
use analyse_tcp.Intervals.{LossInterval, loss_interval, add_loss, add_total, interval_idx}
use analyse_tcp.Intervals.Buckets.{grow_at}

-- `tc[i]`, `tb[i]` and `tn[i]`
pub record Total : Type 0 where
  pub count : ℕ
  pub bytes : ℕ
  pub new_bytes : ℕ

abbrev pub no_total : Total
no_total = record { count = 0; bytes = 0; new_bytes = 0 }

abbrev pub no_loss : LossInterval
no_loss = loss_interval 0 0 0

abbrev pub sent_times : ByteRange → List Timeval
sent_times br = map (λ t. t.0) br.sent_tstamp_pcap

abbrev pub lost_times : ByteRange → List Timeval
lost_times br = map (λ l. l.1) br.lost_tstamps_tcp

-- The intervals have `length_ms` milliseconds each and start at `first`.
module _ (length_ms : ℕ) (first : ℤ) where
  -- The packets of a range with `size` bytes.
  unfoldable pub total_packets : ℕ → List Timeval → List Total → List Total
  total_packets size [] v = v
  total_packets size (t ∷ ts) v = total_packets size ts (
      grow_at no_total (interval_idx length_ms first t)
        (λ u. record u { count = u.count + 1; bytes = u.bytes + size }) v)

  -- The new data of a range, at its first packet.
  unfoldable pub total_new : ByteRange → List Timeval → List Total → List Total
  total_new br [] v = v
  total_new br (t ∷ ts) v =
      if br.packet_sent_count == 0
      then v
      else grow_at no_total (interval_idx length_ms first t)
          (λ u. record u { new_bytes = u.new_bytes + br.original_payload_size }) v

  unfoldable pub totals_loop : RangeMap → List Total → List Total
  totals_loop [] v = v
  totals_loop ((k, br) ∷ m) v =
      totals_loop m (total_packets br.byte_count (sent_times br) (total_new br (sent_times br) v))

  unfoldable pub lose : Timeval → LossInterval → List LossInterval → List LossInterval
  lose t v loss = grow_at no_loss (interval_idx length_ms first t) (add_loss v) loss

  -- The lost packets of a range.
  unfoldable pub lose_packets : ℕ → List Timeval → List LossInterval → List LossInterval
  lose_packets size [] loss = loss
  lose_packets size (t ∷ ts) loss = lose_packets size ts (lose t (loss_interval 1 size 0) loss)

  -- The new data of a range, lost if its first packet is the first one lost.
  unfoldable pub lose_new :
      ByteRange → List Timeval → List LossInterval → Result (List LossInterval)
  lose_new br [] loss = ok loss
  lose_new br (t ∷ ts) loss = if br.packet_sent_count == 0 then ok loss else (do
    s ← or_out_of_range (get_elem? (sent_times br) 0)
    ok (if timeval_eq t s then lose s (loss_interval 0 0 br.original_payload_size) loss else loss))

  unfoldable pub losses_loop : RangeMap → List LossInterval → Result (List LossInterval)
  losses_loop [] loss = ok loss
  losses_loop ((k, br) ∷ m) loss = do
    loss' ← lose_new br (lost_times br) loss
    losses_loop m (lose_packets br.byte_count (lost_times br) loss')

-- The loop that adds the totals, for each index of `loss`: `all_loss` and `loss` behind it.
unfoldable pub set_totals :
    List Total
    → List LossInterval
    → List LossInterval
    → Result (List LossInterval × List LossInterval)
set_totals totals all_loss [] = ok (all_loss, [])
set_totals [] all_loss (l ∷ loss) = err Fault.out_of_range
set_totals (t ∷ totals) [] (l ∷ loss) = err Fault.out_of_range
set_totals (t ∷ totals) (a ∷ all_loss) (l ∷ loss) = do
  r ← set_totals totals all_loss loss
  ok (
    add_total t.count t.bytes t.new_bytes (add_loss l a) ∷ r.0,
    add_total t.count t.bytes t.new_bytes l ∷ r.1,
  )

-- `calculateLossGroupedByInterval`
unfoldable pub calculate_loss_grouped_by_interval :
    Bool
    → ℕ
    → ℤ
    → RangeMap
    → List LossInterval
    → List LossInterval
    → Result (List LossInterval × List LossInterval)
calculate_loss_grouped_by_interval with_recv length_ms first m all_loss loss = do
  assert with_recv
  let totals = totals_loop length_ms first m []
  loss' ← losses_loop length_ms first m loss
  set_totals totals (grow_at no_loss (length loss') (λ v. v) all_loss) loss'
