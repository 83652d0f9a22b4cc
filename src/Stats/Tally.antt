-- ===== src/Stats/Tally.antt =====
-- BaseStats holds the count, the bounds and the sum of its values.
use analyse_tcp.Prelude.{
  ℕ, zero, suc, ◌+◌, ◌%◌, ◌≤◌, ◌<◌, ◌≡◌, refl, sym, ap, Bool, true, false, ◌==◌, ltb, ◌&&◌, ◌∙◌,
  if◌then◌else◌, some, none, All, get_elem?, err, Fault, min, max, List, [], ◌∷◌, ◌++◌, length,
  length-append, append-nil, append_assoc, Result, ok, ◌>>=◌, arith, Bool-cases, inl, inr,
}
use analyse_tcp.Words.{add32, add64, u32_mod, u64_mod, invalid_seq}
use analyse_tcp.Stats.{BaseStats, new_stats, add, add_to_aggregate, make_stats, compute_percentiles}

unfoldable pub sum : List ℕ → ℕ
sum [] = 0
sum (x ∷ xs) = x + sum xs

-- The least of the values, from the largest word down, and the greatest.
unfoldable pub least : List ℕ → ℕ
least [] = invalid_seq
least (x ∷ xs) = min x (least xs)

unfoldable pub greatest : List ℕ → ℕ
greatest [] = 0
greatest (x ∷ xs) = max x (greatest xs)

least-bound : (l : List ℕ) → least l ≤ invalid_seq
unfolding least
least-bound [] = omega arith
least-bound (x ∷ xs) = omega (arith, least-bound xs)

sum-append : (xs ys : List ℕ) → sum (xs ++ ys) ≡ sum xs + sum ys
unfolding sum
sum-append [] ys = omega arith
sum-append (x ∷ xs) ys = omega (arith, sum-append xs ys)

least-append : (xs ys : List ℕ) → least (xs ++ ys) ≡ min (least xs) (least ys)
unfolding least
least-append [] ys = omega (arith, least-bound ys)
least-append (x ∷ xs) ys = omega (arith, least-append xs ys)

greatest-append : (xs ys : List ℕ) → greatest (xs ++ ys) ≡ max (greatest xs) (greatest ys)
unfolding greatest
greatest-append [] ys = omega arith
greatest-append (x ∷ xs) ys = omega (arith, greatest-append xs ys)

-- The fields are those of the list of values `l`.
pub record Tally (l : List ℕ) (st : BaseStats) : Type 0 where
  pub listed : st.values ≡ l
  pub counted : st.counter ≡ length l % u32_mod
  pub summed : st.cum ≡ sum l % u64_mod
  pub lower : st.min_value ≡ least l
  pub upper : st.max_value ≡ greatest l
  pub usable : st.valid ≡ true

-- Values added to fresh statistics, one after the other.
unfoldable pub add_all : List ℕ → BaseStats → Result BaseStats
add_all [] st = ok st
add_all (x ∷ xs) st = add x st >>= add_all xs

pub add-Tally :
    (x : ℕ) (l : List ℕ) (st : BaseStats)
    → Tally l st
    → st.is_aggregate ≡ false
    → (st' : BaseStats) × (add x st ≡ ok st') × Tally (l ++ x ∷ []) st' × (st'.is_aggregate ≡ false)
unfolding add sum least greatest
add-Tally x l st t own =
    let st' : BaseStats = record st {
      counter = add32 st.counter 1;
      min_value = min st.min_value x;
      max_value = max st.max_value x;
      cum = add64 st.cum x;
      values = st.values ++ x ∷ [];
    } in
    let longer = length-append l (x ∷ []) in
    let bound = least-bound l in
    (
      st',
      rw (own, t.usable) refl,
      record {
        listed = ap (λ v. v ++ x ∷ []) t.listed;
        counted = omega (arith, t.counted, longer);
        summed = omega (arith, t.summed, sum-append l (x ∷ []));
        lower = omega (arith, t.lower, least-append l (x ∷ []));
        upper = omega (arith, t.upper, greatest-append l (x ∷ []));
        usable = t.usable;
      },
      own,
    )

add_all-from :
    (xs l : List ℕ) (st : BaseStats)
    → Tally l st
    → st.is_aggregate ≡ false
    → (st' : BaseStats) × (add_all xs st ≡ ok st') × Tally (l ++ xs) st'
unfolding add_all
add_all-from [] l st t own = (st, refl, rw (append-nil l) t)
add_all-from (x ∷ xs) l st t own =
    let (mid, first, tm, om) = add-Tally x l st t own in
    let (st', rest, t') = add_all-from xs (l ++ x ∷ []) mid tm om in
    (st', rw first rest, rw (sym (append_assoc l (x ∷ []) xs)) t')

pub new_stats-Tally : (b : Bool) → Tally [] (new_stats b)
unfolding sum least greatest
new_stats-Tally b = record {
  listed = refl;
  counted = refl;
  summed = refl;
  lower = refl;
  upper = refl;
  usable = refl;
}

-- Each place is in a list of this length.
abbrev pub all_inside : List (ℕ → ℕ) → ℕ → Bool
all_inside [] n = true
all_inside (place ∷ places) n = ltb (place n) n && all_inside places n

-- What makeStats comes to, for `n` values.
abbrev pub made : List (ℕ → ℕ) → ℕ → BaseStats → Result BaseStats
made places n st =
    if n == 0
    then ok (record st { valid = false })
    else if all_inside places n
    then ok st
    else err Fault.out_of_range

read_outside : (vs : List ℕ) (i : ℕ) → length vs ≤ i → get_elem? vs i ≡ none
read_outside [] i h = refl
read_outside (v ∷ vs) zero h = let none_left : ⊥ = omega arith in elim none_left [ ]
read_outside (v ∷ vs) (suc i) h = read_outside vs i (omega arith)

read_inside : (vs : List ℕ) (i : ℕ) → i < length vs → (v : ℕ) × (get_elem? vs i ≡ some v)
read_inside [] i h = let none_left : ⊥ = omega arith in elim none_left [ ]
read_inside (v ∷ vs) zero h = (v, refl)
read_inside (v ∷ vs) (suc i) h = read_inside vs i (omega arith)

compute_percentiles_lem :
    (places : List (ℕ → ℕ)) (vs : List ℕ)
    → compute_percentiles places vs
      ≡ (if all_inside places (length vs) then ok tt else err Fault.out_of_range)
unfolding compute_percentiles
compute_percentiles_lem [] vs = refl
compute_percentiles_lem (place ∷ places) vs =
    elim (Bool-cases (ltb (place (length vs)) (length vs))) [
      | inl h ↦
          let (v, e) = read_inside vs (place (length vs)) (ground (arith, h)) in
          rw (h, e) (compute_percentiles_lem places vs)
      | inr h ↦ rw (h, read_outside vs (place (length vs)) (ground (arith, h))) refl
    ]

pub make_stats-made :
    (places : List (ℕ → ℕ)) (l : List ℕ) (st : BaseStats)
    → Tally l st
    → length l < u32_mod
    → make_stats places st ≡ made places (length l) st
unfolding make_stats
make_stats-made places l st t few =
    let number : length st.values ≡ length l = ap length t.listed in
    let agrees : (length st.values == st.counter) ≡ true = ground (arith, t.counted) in
    elim (Bool-cases (length l == 0)) [
      | inl z ↦ rw (number, z) refl
      | inr z ↦
          let nonempty : (length st.values == 0) ≡ false = ground (arith, number, z) in
          let read =
            compute_percentiles_lem places st.values
            ∙ ap (λ n. if all_inside places n then ok tt else err Fault.out_of_range) number in
          rw (nonempty, agrees, read, z)
            (elim (Bool-cases (all_inside places (length l))) [
              | inl h ↦ rw h refl
              | inr h ↦ rw h refl
            ])
    ]

-- Values below 2^53 that are added to fresh statistics, one after the other: each call returns, and the
-- statistics then have the values in their order, their number modulo 2^32, their sum modulo 2^64, and the
-- least and the greatest of them. If they are fewer than 2^32, makeStats then returns, with statistics that are
-- not valid if there are no values; but if a percentile is asked for whose place is behind the last
-- value, it reads behind the values.
pub add_all-Tally :
    (xs : List ℕ)
    → All (λ x. x < 9007199254740992) xs
    → (st : BaseStats) × (add_all xs (new_stats false) ≡ ok st)
      × Tally xs st
      × (length xs < u32_mod
          → (places : List (ℕ → ℕ)) → make_stats places st ≡ made places (length xs) st)
add_all-Tally xs exact =
    let (st, done, t) = add_all-from xs [] (new_stats false) (new_stats-Tally false) refl in
    (st, done, t, λ few places. make_stats-made places xs st t few)

-- The statistics of a connection, added to an aggregate: the call returns, and the aggregate then is what
-- the values of both, added one by one, would have made it.
pub add_to_aggregate-Tally :
    (l r : List ℕ) (st rhs : BaseStats)
    → Tally l st
    → Tally r rhs
    → st.is_aggregate ≡ true
    → (st' : BaseStats) × (add_to_aggregate rhs st ≡ ok st')
      × Tally (l ++ r) st'
      × (st'.is_aggregate ≡ true)
unfolding add_to_aggregate
add_to_aggregate-Tally l r st rhs t u agg =
    let st' : BaseStats = record st {
      min_value = min st.min_value rhs.min_value;
      max_value = max st.max_value rhs.max_value;
      cum = add64 st.cum rhs.cum;
      values = st.values ++ rhs.values;
      counter = add32 st.counter (length rhs.values % u32_mod);
    } in
    let number : length rhs.values ≡ length r = ap length u.listed in
    (
      st',
      rw (agg, t.usable, u.usable) refl,
      record {
        listed = rw (t.listed, u.listed) refl;
        counted = omega (arith, t.counted, number, length-append l r);
        summed = omega (arith, t.summed, u.summed, sum-append l r);
        lower = omega (arith, t.lower, u.lower, least-append l r);
        upper = omega (arith, t.upper, u.upper, greatest-append l r);
        usable = t.usable;
      },
      agg,
    )
