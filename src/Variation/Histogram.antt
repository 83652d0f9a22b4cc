-- ===== src/Variation/Histogram.antt =====
-- The histogram of the delays.
use analyse_tcp.Prelude.{
  ℕ, ◌+◌, ◌%◌, ◌≡◌, refl, inl, inr, Bool, true, false, if◌then◌else◌, [], ◌∷◌, arith, Bool-cases,
}
use analyse_tcp.Prelude.Int.{ℤ, ◌-ℤ◌, eqb_ℤ}
use analyse_tcp.Words.{u32_mod, u64_mod}
use analyse_tcp.RangeMap.{RangeMap}
use analyse_tcp.Intervals.Grouped.{sum_over}
use analyse_tcp.Variation.{
  Histogram, add_bytes, Histograms, cdf_loop, make_byte_latency_variation_cdf,
}

-- The bytes with a delay, over all the buckets for it.
abbrev pub bytes_at : ℤ → Histogram → ℕ
bytes_at delay [] = 0
bytes_at delay ((d, n) ∷ h) = if eqb_ℤ d delay then n else bytes_at delay h

-- A delay has one bucket.
abbrev pub Absent : ℤ → Histogram → Type 0
Absent delay [] = Unit {0}
Absent delay ((d, n) ∷ h) = (eqb_ℤ d delay ≡ false) × Absent delay h

abbrev pub Unique : Histogram → Type 0
Unique [] = Unit {0}
Unique ((d, n) ∷ h) = Absent d h × Unique h

bytes_at-add_bytes :
    (delay at : ℤ) (n : ℕ) (h : Histogram)
    → bytes_at at (add_bytes delay n h) % u32_mod
      ≡ (bytes_at at h + (if eqb_ℤ delay at then n else 0)) % u32_mod
unfolding add_bytes
bytes_at-add_bytes delay at n [] = ground arith
bytes_at-add_bytes delay at n ((d, k) ∷ h) = ground (arith, bytes_at-add_bytes delay at n h)

Absent-add_bytes :
    (delay at : ℤ) (n : ℕ) (h : Histogram)
    → eqb_ℤ delay at ≡ false
    → Absent at h
    → Absent at (add_bytes delay n h)
unfolding add_bytes
Absent-add_bytes delay at n [] e a = (e, tt)
Absent-add_bytes delay at n ((d, k) ∷ h) e a = elim (Bool-cases (eqb_ℤ d delay)) [
  | inl s ↦ rw s a
  | inr s ↦ rw s (a.0, Absent-add_bytes delay at n h e a.1)
]

add_bytes-Unique : (delay : ℤ) (n : ℕ) (h : Histogram) → Unique h → Unique (add_bytes delay n h)
unfolding add_bytes
add_bytes-Unique delay n [] u = (tt, tt)
add_bytes-Unique delay n ((d, k) ∷ h) u = elim (Bool-cases (eqb_ℤ d delay)) [
  | inl s ↦ rw s u
  | inr s ↦ rw s (Absent-add_bytes delay d n h (ground arith) u.0, add_bytes-Unique delay n h u.1)
]

-- The bytes of the ranges with a delay.
abbrev pub bytes_with : ℤ → ℤ → RangeMap → ℕ
bytes_with lowest at = sum_over (λ br. if eqb_ℤ (br.diff -ℤ lowest) at then br.byte_count else 0)

-- The histograms `h'` are `h` with the ranges `m` counted.
pub record IsCounted (aggregate : Bool) (lowest : ℤ) (m : RangeMap) (h h' : Histograms)
    : Type 0 where
  pub own_unique : Unique h'.own
  pub global_unique : Unique h'.global
  pub own_bytes :
      (at : ℤ)
      → bytes_at at h'.own % u32_mod ≡ (bytes_at at h.own + bytes_with lowest at m) % u32_mod
  pub global_bytes :
      (at : ℤ)
      → bytes_at at h'.global % u32_mod
        ≡ (bytes_at at h.global + (if aggregate then bytes_with lowest at m else 0)) % u32_mod

cdf_loop-IsCounted :
    (aggregate : Bool) (lowest : ℤ) (m : RangeMap) (h : Histograms)
    → Unique h.own
    → Unique h.global
    → IsCounted aggregate lowest m h (cdf_loop aggregate lowest m h)
unfolding cdf_loop
cdf_loop-IsCounted aggregate lowest [] h u g = record {
  own_unique = u;
  global_unique = g;
  own_bytes = λ at. ground arith;
  global_bytes = λ at. ground arith;
}
cdf_loop-IsCounted true lowest ((k, br) ∷ m) h u g =
    let delay = br.diff -ℤ lowest in
    let n = br.byte_count in
    let mid : Histograms = record h {
      own = add_bytes delay n h.own;
      global = add_bytes delay n h.global;
    } in
    let rest =
      cdf_loop-IsCounted true lowest m mid (add_bytes-Unique delay n h.own u)
        (add_bytes-Unique delay n h.global g) in
    record {
      own_unique = rest.own_unique;
      global_unique = rest.global_unique;
      own_bytes = λ at. ground (arith, rest.own_bytes at, bytes_at-add_bytes delay at n h.own);
      global_bytes =
          λ at. ground (arith, rest.global_bytes at, bytes_at-add_bytes delay at n h.global);
    }
cdf_loop-IsCounted false lowest ((k, br) ∷ m) h u g =
    let delay = br.diff -ℤ lowest in
    let n = br.byte_count in
    let mid : Histograms = record h { own = add_bytes delay n h.own } in
    let rest = cdf_loop-IsCounted false lowest m mid (add_bytes-Unique delay n h.own u) g in
    record {
      own_unique = rest.own_unique;
      global_unique = rest.global_unique;
      own_bytes = λ at. ground (arith, rest.own_bytes at, bytes_at-add_bytes delay at n h.own);
      global_bytes = rest.global_bytes;
    }

cdf_loop-total :
    (aggregate : Bool) (lowest : ℤ) (m : RangeMap) (h : Histograms)
    → (cdf_loop aggregate lowest m h).tot_num_bytes ≡ h.tot_num_bytes
unfolding cdf_loop
cdf_loop-total aggregate lowest [] h = refl
cdf_loop-total aggregate lowest ((k, br) ∷ m) h = cdf_loop-total aggregate lowest m _

-- Histograms with one bucket for each delay, of a connection and of all connections: the call keeps that, and
-- adds, to the bucket for each delay, the bytes of the ranges whose delay over the lowest is that one, modulo
-- 2^32; to those of all connections if they are aggregated, and else none. The number of bytes of all
-- connections grows by the last sequence number.
pub make_byte_latency_variation_cdf-IsCounted :
    (aggregate : Bool) (lowest : ℤ) (last_seq : ℕ) (m : RangeMap) (h : Histograms)
    → Unique h.own
    → Unique h.global
    → IsCounted aggregate lowest m h (make_byte_latency_variation_cdf aggregate lowest last_seq m h)
      × ((make_byte_latency_variation_cdf aggregate lowest last_seq m h).tot_num_bytes
          ≡ (h.tot_num_bytes + last_seq) % u64_mod)
unfolding make_byte_latency_variation_cdf
make_byte_latency_variation_cdf-IsCounted aggregate lowest last_seq m h u g =
    let c = cdf_loop-IsCounted aggregate lowest m h u g in
    (
      record {
        own_unique = c.own_unique;
        global_unique = c.global_unique;
        own_bytes = c.own_bytes;
        global_bytes = c.global_bytes;
      },
      omega (arith, cdf_loop-total aggregate lowest m h),
    )
