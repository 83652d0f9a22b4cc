-- ===== src/Stats/Bisect.antt =====
-- The search by halves of setAnalyseRangeInterval finds the last range within the duration.
use analyse_tcp.Prelude.{
  ℕ, zero, suc, ◌+◌, ◌-◌, ◌/◌, ◌≤◌, ◌<◌, ◌≡◌, refl, ◌∙◌, true, false, ◌==◌, ok, Result, arith,
  Bool-cases, inl, inr,
}
use analyse_tcp.Prelude.Int.{ℤ, leb_ℤ}
use analyse_tcp.Time.{Timeval}
use analyse_tcp.RangeMap.{RangeMap}
use analyse_tcp.Stats.Interval.{elapsed, duration_loop}

-- A round of the search that does not end it.
half :
    (fuel it start end : ℕ) (m : RangeMap) (from : Timeval) (limit s : ℤ)
    → ((end - start) / 2 == 0) ≡ false
    → elapsed m from (it + (end - start) / 2) ≡ ok s
    → duration_loop (suc fuel) m from limit it start end
      ≡ (elim (leb_ℤ s limit) as (λ _. Result ℕ) [
        | true ↦
            duration_loop fuel m from limit (it + (end - start) / 2) (start + (end - start) / 2) end
        | false ↦ duration_loop fuel m from limit it start (end - (end - start) / 2)
      ])
unfolding duration_loop
half fuel it start end m from limit s h e = rw (duration_loop, h, e) refl

module _ (m : RangeMap) (from : Timeval) (limit : ℤ) (secs : ℕ → ℤ) (size : ℕ)
    (sent : (i : ℕ) → i < size → elapsed m from i ≡ ok (secs i))
    (sorted : (i j : ℕ)
      → i ≤ j
      → j < size
      → leb_ℤ (secs j) limit ≡ true
      → leb_ℤ (secs i) limit ≡ true) where
  -- The ranges were sent in the order of their positions, each with a time stamp, the one at `start` within the
  -- limit, and none from `end` on: with fuel for each position between, the search by halves
  -- returns the last range that was sent within the limit, so that those up to it are in the
  -- duration and those behind it are not.
  pub duration_loop_last :
      (fuel start end : ℕ)
      → end - start < fuel
      → start < end
      → end ≤ size
      → leb_ℤ (secs start) limit ≡ true
      → ((j : ℕ) → end ≤ j → j < size → leb_ℤ (secs j) limit ≡ false)
      → (i : ℕ) × (duration_loop fuel m from limit start start end ≡ ok i)
        × (start ≤ i)
        × (i < end)
        × (leb_ℤ (secs i) limit ≡ true)
        × ((j : ℕ) → i < j → j < size → leb_ℤ (secs j) limit ≡ false)
  unfolding duration_loop
  duration_loop_last zero start end enough lt le first behind =
      let none_left : ⊥ = omega arith in elim none_left [ ]
  duration_loop_last (suc fuel) start end enough lt le first behind =
      let advance = (end - start) / 2 in
      elim (Bool-cases (advance == 0)) [
        | inl h ↦
            let last : end ≡ start + 1 = ground arith in
            (
              start,
              rw (duration_loop, h) refl,
              omega arith,
              omega arith,
              first,
              λ j lj js. behind j (omega arith) js,
            )
        | inr h ↦
            let round =
              half fuel start start end m from limit (secs (start + advance)) h
                (sent (start + advance) (omega arith)) in
            elim (Bool-cases (leb_ℤ (secs (start + advance)) limit)) [
              | inl g ↦
                  let (i, found, si, ie, within, after) =
                    duration_loop_last fuel (start + advance) end (ground arith) (omega arith) le g
                      behind in
                  (i, round ∙ rw g found, omega arith, ie, within, after)
              | inr g ↦
                  let (i, found, si, ie, within, after) =
                    duration_loop_last fuel start (end - advance) (ground arith) (omega arith)
                      (omega arith) first
                      (λ j ej js. elim (Bool-cases (leb_ℤ (secs j) limit)) [
                        | inr f ↦ f
                        | inl t ↦ ground (arith, g, sorted (start + advance) j (omega arith) js t)
                      ]) in
                  (i, round ∙ rw g found, si, omega arith, within, after)
            ]
      ]
