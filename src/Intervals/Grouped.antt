-- ===== src/Intervals/Grouped.antt =====
-- What `calculateLossGroupedByInterval` puts in each interval.
use analyse_tcp.Prelude.{
  ℕ, suc, ◌+◌, ◌≡◌, refl, ◌⊎◌, inl, inr, true, ◌==◌, if◌then◌else◌, max, List, [], ◌∷◌, length, ok,
  arith, Bool-cases, All,
}
use analyse_tcp.Prelude.Int.{ℤ, eq_of_parts}
use analyse_tcp.Time.{Timeval, timeval_eq}
use analyse_tcp.Range.{ByteRange}
use analyse_tcp.RangeMap.{RangeMap}
use analyse_tcp.Intervals.{LossInterval, loss_interval, add_loss, interval_idx}
use analyse_tcp.Intervals.Buckets.{grow_at, get_or, get_or-grow_at, length-grow_at}
use analyse_tcp.Intervals.Loss.{
  Total, no_total, no_loss, sent_times, lost_times, total_packets, total_new, totals_loop, lose,
  lose_packets, lose_new, losses_loop,
}

-- The sum of a quantity over the ranges, and its maximum.
abbrev pub sum_over : (ByteRange → ℕ) → RangeMap → ℕ
sum_over f [] = 0
sum_over f ((k, br) ∷ m) = f br + sum_over f m

abbrev pub max_over : (ByteRange → ℕ) → RangeMap → ℕ
max_over f [] = 0
max_over f ((k, br) ∷ m) = max (f br) (max_over f m)

-- One of the times.
abbrev pub Among : Timeval → List Timeval → Type 0
Among t [] = ⊥
Among t (s ∷ ts) = (t ≡ s) ⊎ Among t ts

-- The lost packets of each range are packets that were sent.
abbrev pub LostSent : RangeMap → Type 0
LostSent [] = Unit {0}
LostSent ((k, br) ∷ m) = All (λ t. Among t (sent_times br)) (lost_times br) × LostSent m

module _ (length_ms : ℕ) (first : ℤ) where
  -- `n` for each of the times in the interval `i`.
  unfoldable pub weigh : ℕ → ℕ → List Timeval → ℕ
  weigh i n [] = 0
  weigh i n (t ∷ ts) = (if interval_idx length_ms first t == i then n else 0) + weigh i n ts

  -- The number of intervals up to the last one of the times.
  unfoldable pub extent : List Timeval → ℕ
  extent [] = 0
  extent (t ∷ ts) = max (suc (interval_idx length_ms first t)) (extent ts)

  -- The new data of a range that was first sent in the interval.
  unfoldable pub new_sent : ℕ → ByteRange → List Timeval → ℕ
  new_sent i br [] = 0
  new_sent i br (t ∷ ts) =
      if br.packet_sent_count == 0
      then 0
      else if interval_idx length_ms first t == i
      then br.original_payload_size
      else 0

  -- The same, if its first packet is the first one lost.
  unfoldable pub new_lost : ℕ → ByteRange → List Timeval → List Timeval → ℕ
  new_lost i br (t ∷ ts) (s ∷ ss) = if timeval_eq t s then new_sent i br (s ∷ ss) else 0
  new_lost i br (t ∷ ts) [] = 0
  new_lost i br [] ss = 0

  -- What was sent in an interval, and what was lost.
  unfoldable pub sent_in : ℕ → RangeMap → Total
  sent_in i m = record {
    count = sum_over (λ br. weigh i 1 (sent_times br)) m;
    bytes = sum_over (λ br. weigh i br.byte_count (sent_times br)) m;
    new_bytes = sum_over (λ br. new_sent i br (sent_times br)) m;
  }

  unfoldable pub lost_in : ℕ → RangeMap → LossInterval
  lost_in i m =
      loss_interval (sum_over (λ br. weigh i 1 (lost_times br)) m)
        (sum_over (λ br. weigh i br.byte_count (lost_times br)) m)
        (sum_over (λ br. new_lost i br (lost_times br) (sent_times br)) m)

  total_packets-at :
      (i size : ℕ) (ts : List Timeval) (v : List Total)
      → get_or (total_packets length_ms first size ts v) i no_total ≡ record (get_or v i no_total) {
        count = (get_or v i no_total).count + weigh i 1 ts;
        bytes = (get_or v i no_total).bytes + weigh i size ts;
      }
  unfolding total_packets weigh
  total_packets-at i size [] v = ground arith
  total_packets-at i size (t ∷ ts) v =
      let at = interval_idx length_ms first t in
      let f : Total → Total = λ u. record u { count = u.count + 1; bytes = u.bytes + size } in
      ground (
        arith,
        total_packets-at i size ts (grow_at no_total at f v),
        get_or-grow_at no_total at i f v,
      )

  total_new-at :
      (i : ℕ) (br : ByteRange) (ts : List Timeval) (v : List Total)
      → get_or (total_new length_ms first br ts v) i no_total ≡ record (get_or v i no_total) {
        new_bytes = (get_or v i no_total).new_bytes + new_sent i br ts;
      }
  unfolding total_new new_sent
  total_new-at i br [] v = ground arith
  total_new-at i br (t ∷ ts) v =
      let at = interval_idx length_ms first t in
      let f : Total → Total =
        λ u. record u { new_bytes = u.new_bytes + br.original_payload_size } in
      ground (arith, get_or-grow_at no_total at i f v)

  pub totals_loop-at :
      (i : ℕ) (m : RangeMap) (v : List Total)
      → get_or (totals_loop length_ms first m v) i no_total ≡ record {
        count = (get_or v i no_total).count + (sent_in i m).count;
        bytes = (get_or v i no_total).bytes + (sent_in i m).bytes;
        new_bytes = (get_or v i no_total).new_bytes + (sent_in i m).new_bytes;
      }
  unfolding totals_loop sent_in
  totals_loop-at i [] v = ground arith
  totals_loop-at i ((k, br) ∷ m) v =
      let fresh = total_new length_ms first br (sent_times br) v in
      let here = total_packets length_ms first br.byte_count (sent_times br) fresh in
      ground (
        arith,
        totals_loop-at i m here,
        total_packets-at i br.byte_count (sent_times br) fresh,
        total_new-at i br (sent_times br) v,
      )

  length-total_packets :
      (size : ℕ) (ts : List Timeval) (v : List Total)
      → length (total_packets length_ms first size ts v) ≡ max (length v) (extent ts)
  unfolding total_packets extent
  length-total_packets size [] v = omega arith
  length-total_packets size (t ∷ ts) v =
      let at = interval_idx length_ms first t in
      let f : Total → Total = λ u. record u { count = u.count + 1; bytes = u.bytes + size } in
      omega (
        arith,
        length-total_packets size ts (grow_at no_total at f v),
        length-grow_at no_total at f v,
      )

  length-total_new :
      (br : ByteRange) (ts : List Timeval) (v : List Total)
      → max (length (total_new length_ms first br ts v)) (extent ts) ≡ max (length v) (extent ts)
  unfolding total_new extent
  length-total_new br [] v = refl
  length-total_new br (t ∷ ts) v =
      let at = interval_idx length_ms first t in
      let f : Total → Total =
        λ u. record u { new_bytes = u.new_bytes + br.original_payload_size } in
      ground (arith, length-grow_at no_total at f v)

  pub length-totals_loop :
      (m : RangeMap) (v : List Total)
      → length (totals_loop length_ms first m v)
        ≡ max (length v) (max_over (λ br. extent (sent_times br)) m)
  unfolding totals_loop
  length-totals_loop [] v = omega arith
  length-totals_loop ((k, br) ∷ m) v =
      let fresh = total_new length_ms first br (sent_times br) v in
      let here = total_packets length_ms first br.byte_count (sent_times br) fresh in
      omega (
        arith,
        length-totals_loop m here,
        length-total_packets br.byte_count (sent_times br) fresh,
        length-total_new br (sent_times br) v,
      )

  lose_packets-at :
      (i size : ℕ) (ts : List Timeval) (v : List LossInterval)
      → get_or (lose_packets length_ms first size ts v) i no_loss
        ≡ add_loss (loss_interval (weigh i 1 ts) (weigh i size ts) 0) (get_or v i no_loss)
  unfolding lose_packets lose weigh
  lose_packets-at i size [] v = ground arith
  lose_packets-at i size (t ∷ ts) v =
      let at = interval_idx length_ms first t in
      let f = add_loss (loss_interval 1 size 0) in
      ground
        (arith, lose_packets-at i size ts (grow_at no_loss at f v), get_or-grow_at no_loss at i f v)

  length-lose_packets :
      (size : ℕ) (ts : List Timeval) (v : List LossInterval)
      → length (lose_packets length_ms first size ts v) ≡ max (length v) (extent ts)
  unfolding lose_packets lose extent
  length-lose_packets size [] v = omega arith
  length-lose_packets size (t ∷ ts) v =
      let at = interval_idx length_ms first t in
      let f = add_loss (loss_interval 1 size 0) in
      omega
        (arith, length-lose_packets size ts (grow_at no_loss at f v), length-grow_at no_loss at f v)

  timeval_eq-eq : (t s : Timeval) → timeval_eq t s ≡ true → t ≡ s
  unfolding timeval_eq
  timeval_eq-eq t s h = ground (arith, eq_of_parts t.sec s.sec, eq_of_parts t.usec s.usec)

  -- A vector of losses that has `n` more in each interval, and is no longer than the times ask for.
  record Lost (br : ByteRange) (ts ss : List Timeval) (v v' : List LossInterval) : Type 0 where
    at :
        (i : ℕ)
        → get_or v' i no_loss
          ≡ add_loss (loss_interval 0 0 (new_lost i br ts ss)) (get_or v i no_loss)
    size : max (length v') (extent ts) ≡ max (length v) (extent ts)

  lose_new-Lost :
      (br : ByteRange) (ts ss : List Timeval) (v : List LossInterval)
      → sent_times br ≡ ss
      → All (λ t. Among t ss) ts
      → (v' : List LossInterval) × (lose_new length_ms first br ts v ≡ ok v') × Lost br ts ss v v'
  unfolding lose_new new_lost new_sent extent lose
  lose_new-Lost br [] ss v e known = (v, refl, record { at = λ i. ground arith; size = refl })
  lose_new-Lost br (t ∷ ts) [] v e known = elim known.0 [ ]
  lose_new-Lost br (t ∷ ts) (s ∷ ss) v e known = elim (Bool-cases (br.packet_sent_count == 0)) [
    | inl none_sent ↦ (v, rw none_sent refl, record { at = λ i. ground arith; size = refl })
    | inr sent ↦
        let at = interval_idx length_ms first s in
        let f = add_loss (loss_interval 0 0 br.original_payload_size) in
        elim (Bool-cases (timeval_eq t s)) [
          | inl same ↦
              let eq = timeval_eq-eq t s same in
              (
                grow_at no_loss at f v,
                rw (sent, e, same) refl,
                record {
                  at = λ i. ground (arith, get_or-grow_at no_loss at i f v);
                  size = rw eq (omega (arith, length-grow_at no_loss at f v));
                },
              )
          | inr differ ↦
              (v, rw (sent, e, differ) refl, record { at = λ i. ground arith; size = refl })
        ]
  ]

  pub record AllLost (m : RangeMap) (v v' : List LossInterval) : Type 0 where
    pub at : (i : ℕ) → get_or v' i no_loss ≡ add_loss (lost_in i m) (get_or v i no_loss)
    pub size : length v' ≡ max (length v) (max_over (λ br. extent (lost_times br)) m)

  pub losses_loop-AllLost :
      (m : RangeMap) (v : List LossInterval)
      → LostSent m
      → (v' : List LossInterval) × (losses_loop length_ms first m v ≡ ok v') × AllLost m v v'
  unfolding losses_loop lost_in
  losses_loop-AllLost [] v known = (v, refl, record { at = λ i. ground arith; size = omega arith })
  losses_loop-AllLost ((k, br) ∷ m) v known =
      let ts = lost_times br in
      let (fresh, e, l) = lose_new-Lost br ts (sent_times br) v refl known.0 in
      let here = lose_packets length_ms first br.byte_count ts fresh in
      let (v', e', all) = losses_loop-AllLost m here known.1 in
      (
        v',
        rw e e',
        record {
          at = λ i. ground (arith, all.at i, l.at i, lose_packets-at i br.byte_count ts fresh);
          size = omega (arith, all.size, l.size, length-lose_packets br.byte_count ts fresh);
        },
      )
