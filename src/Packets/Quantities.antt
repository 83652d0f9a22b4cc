-- ===== src/Packets/Quantities.antt =====
-- One quantity over all connections.
use analyse_tcp.Prelude.{
  ℕ, ◌/◌, ◌<◌, ◌≡◌, refl, ◌∙◌, true, false, ◌==◌, List, [], ◌∷◌, ◌++◌, append-nil, length, ok,
  arith,
}
use analyse_tcp.Words.{u32_mod}
use analyse_tcp.Stats.{BaseStats}
use analyse_tcp.Stats.Tally.{Tally, sum, least, greatest, add-Tally, add_to_aggregate-Tally}
use analyse_tcp.Packets.Aggregate.{Quantity, whole_avg, add_quantity}
use analyse_tcp.Packets.Report.{Listed}

-- The division of doubles is exact up to the cut, below 2^53.
abbrev pub IsDivision : (ℕ → ℕ → ℕ) → Type 0
IsDivision divide = (a b : ℕ) → a < 9007199254740992 → 0 < b → b < u32_mod → divide a b ≡ a / b

-- Statistics behind makeStats, of fewer than 2^32 values whose sum is below 2^53.
pub record Finished (st : BaseStats) : Type 0 where
  pub held : Listed st.values st
  pub few : length st.values < u32_mod
  pub small : sum st.values < 9007199254740992

-- A number for the values, if there are any.
abbrev pub pick : (List ℕ → ℕ) → List ℕ → List ℕ
pick f [] = []
pick f (x ∷ l) = f (x ∷ l) ∷ []

-- The average, cut to a whole number.
abbrev pub average_of : List ℕ → ℕ
average_of l = sum l / length l

-- A quantity that has these values, over all connections and for the connections.
pub record Summary (all leasts averages greatests : List ℕ) (q : Quantity) : Type 0 where
  pub values : Tally all q.aggregated
  pub joint : q.aggregated.is_aggregate ≡ true
  pub leasts_held : Tally leasts q.minimum
  pub leasts_own : q.minimum.is_aggregate ≡ false
  pub averages_held : Tally averages q.average
  pub averages_own : q.average.is_aggregate ≡ false
  pub greatests_held : Tally greatests q.maximum
  pub greatests_own : q.maximum.is_aggregate ≡ false

Listed-Tally : (x : ℕ) (l : List ℕ) (st : BaseStats) → Listed (x ∷ l) st → Tally (x ∷ l) st
Listed-Tally x l st h = record {
  listed = h.listed;
  counted = h.counted;
  summed = h.summed;
  lower = h.lower;
  upper = h.upper;
  usable = h.usable ∙ ground arith;
}

whole_avg-average_of :
    (divide : ℕ → ℕ → ℕ) (x : ℕ) (l : List ℕ) (st : BaseStats)
    → IsDivision divide
    → Listed (x ∷ l) st
    → st.counter ≡ length (x ∷ l)
    → length (x ∷ l) < u32_mod
    → sum (x ∷ l) < 9007199254740992
    → whole_avg divide st ≡ average_of (x ∷ l)
unfolding whole_avg
whole_avg-average_of divide x l st exact h counter few small =
    let counted : (st.counter == 0) ≡ false = ground (arith, counter) in
    let whole : st.cum ≡ sum (x ∷ l) = omega (arith, h.summed, small) in
    rw (counted, whole, counter) (exact (sum (x ∷ l)) (length (x ∷ l)) small (omega arith) few)

pub add_quantity-Summary :
    (divide : ℕ → ℕ → ℕ) (l a b c d : List ℕ) (st : BaseStats) (q : Quantity)
    → IsDivision divide
    → Listed l st
    → length l < u32_mod
    → sum l < 9007199254740992
    → Summary a b c d q
    → (q' : Quantity) × (add_quantity divide st q ≡ ok q')
      × Summary (a ++ l) (b ++ pick least l) (c ++ pick average_of l) (d ++ pick greatest l) q'
unfolding add_quantity
add_quantity-Summary divide [] a b c d st q exact h few small s =
    let none_counted : (st.counter == 0) ≡ true = ground (arith, h.counted) in
    (q, rw none_counted refl, rw (append-nil a, append-nil b, append-nil c, append-nil d) s)
add_quantity-Summary divide (x ∷ l) a b c d st q exact h few small s =
    let t = Listed-Tally x l st h in
    let counter : st.counter ≡ length (x ∷ l) = omega (arith, h.counted) in
    let counted : (st.counter == 0) ≡ false = ground (arith, counter) in
    let avg = whole_avg-average_of divide x l st exact h counter few small in
    let (g, eg, tg, og) = add_to_aggregate-Tally a (x ∷ l) q.aggregated st s.values t s.joint in
    let (v, ev, tv, ov) =
      add-Tally (whole_avg divide st) c q.average s.averages_held s.averages_own in
    let (n, en, tn, on) = add-Tally st.min_value b q.minimum s.leasts_held s.leasts_own in
    let (m, em, tm, om) = add-Tally st.max_value d q.maximum s.greatests_held s.greatests_own in
    (
      record { aggregated = g; minimum = n; average = v; maximum = m },
      rw (counted, eg, ev, en, em) refl,
      record {
        values = tg;
        joint = og;
        leasts_held = rw (← h.lower) tn;
        leasts_own = on;
        averages_held = rw (← avg) tv;
        averages_own = ov;
        greatests_held = rw (← h.upper) tm;
        greatests_own = om;
      },
    )
