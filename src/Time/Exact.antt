-- ===== src/Time/Exact.antt =====
-- The arithmetic of `timeval`s against the number of microseconds that they stand for.
use analyse_tcp.Prelude.{
  ◌+◌, ◌*◌, ◌≡◌, refl, ◌∙◌, arith, if◌then◌else◌, tests, Bool-cases, inl, inr, ge→ltb, ltb→lt,
  ltb→ge, false, true,
}
use analyse_tcp.Prelude.Int.{
  ℤ, pos, negsuc, pos_part, neg_part, ◌+ℤ◌, ◌-ℤ◌, ◌*ℤ◌, ◌≤ℤ◌, ◌<ℤ◌, ltb_ℤ, int_laws, leb_ℤ, eqb_ℤ,
  *ℤ_parts,
}
use analyse_tcp.Time.{
  Timeval, get_usecs, timersub, timevalfix, borrow, carry, magnitude, restore_sign, fix_sign,
  timevaladd, timevalsub, negtimersub,
}

-- The microseconds are a fraction of a second.
abbrev pub IsNormal : Timeval → Type 0
IsNormal tv = (pos 0 ≤ℤ tv.usec) × (tv.usec <ℤ pos 1000000)

usecs_parts :
    (tv : Timeval)
    → pos_part (get_usecs tv) + neg_part tv.sec * 1000000 + neg_part tv.usec
      ≡ neg_part (get_usecs tv) + pos_part tv.sec * 1000000 + pos_part tv.usec
unfolding get_usecs ◌+ℤ◌ ◌*ℤ◌
usecs_parts tv = ground arith

ruleset time_laws = (int_laws, tests, usecs_parts, *ℤ_parts)

carry-get_usecs : (tv : Timeval) → get_usecs (carry tv) ≡ get_usecs tv
unfolding carry
carry-get_usecs tv = elim (Bool-cases (leb_ℤ (pos 1000000) tv.usec)) [
  | inl h ↦ rw h (omega time_laws)
  | inr h ↦ rw h
]

borrow-get_usecs : (tv : Timeval) → get_usecs (borrow tv) ≡ get_usecs tv
unfolding borrow
borrow-get_usecs tv = elim (Bool-cases (ltb_ℤ tv.usec (pos 0))) [
  | inl h ↦ rw h (omega time_laws)
  | inr h ↦ rw h
]

timevalfix-get_usecs : (tv : Timeval) → get_usecs (timevalfix tv) ≡ get_usecs tv
unfolding timevalfix
timevalfix-get_usecs tv = carry-get_usecs (borrow tv) ∙ borrow-get_usecs tv

timersub-get_usecs : (a b : Timeval) → get_usecs (timersub a b) ≡ get_usecs a -ℤ get_usecs b
unfolding timersub
timersub-get_usecs a b =
    borrow-get_usecs (record { sec = a.sec -ℤ b.sec; usec = a.usec -ℤ b.usec }) ∙ omega time_laws

timevaladd-get_usecs : (a b : Timeval) → get_usecs (timevaladd a b) ≡ get_usecs a +ℤ get_usecs b
unfolding timevaladd
timevaladd-get_usecs a b =
    timevalfix-get_usecs (record { sec = a.sec +ℤ b.sec; usec = a.usec +ℤ b.usec })
    ∙ omega time_laws

timevalsub-get_usecs : (a b : Timeval) → get_usecs (timevalsub a b) ≡ get_usecs a -ℤ get_usecs b
unfolding timevalsub
timevalsub-get_usecs a b =
    timevalfix-get_usecs (record { sec = a.sec -ℤ b.sec; usec = a.usec -ℤ b.usec })
    ∙ omega time_laws

timevalfix-IsNormal :
    (tv : Timeval) → negsuc 999999 ≤ℤ tv.usec → tv.usec <ℤ pos 2000000 → IsNormal (timevalfix tv)
unfolding timevalfix carry borrow
timevalfix-IsNormal tv lo hi = elim (Bool-cases (ltb_ℤ tv.usec (pos 0))) [
  | inl h ↦ rw h (elim (Bool-cases (leb_ℤ (pos 1000000) (tv.usec +ℤ pos 1000000))) [
    | inl k ↦ rw k (omega time_laws)
    | inr k ↦ rw k (omega time_laws)
  ])
  | inr h ↦ rw h (elim (Bool-cases (leb_ℤ (pos 1000000) tv.usec)) [
    | inl k ↦ rw k (omega time_laws)
    | inr k ↦ rw k (omega time_laws)
  ])
]

-- The number of microseconds that the result of `negtimersub` stands for: behind a negative number
-- of seconds the microseconds are a magnitude.
pub signed_usecs : Timeval → ℤ
signed_usecs tv =
    if ltb_ℤ tv.sec (pos 0) then tv.sec *ℤ 1000000 -ℤ tv.usec else tv.sec *ℤ 1000000 +ℤ tv.usec

restore_sign-signed_usecs :
    (tv : Timeval) → tv.sec ≤ℤ pos 0 → signed_usecs (restore_sign tv) ≡ tv.sec *ℤ 1000000 -ℤ tv.usec
unfolding restore_sign signed_usecs
restore_sign-signed_usecs tv le = elim (Bool-cases (eqb_ℤ tv.sec (pos 0))) [
  | inl h ↦
      let nonneg : ltb_ℤ tv.sec (pos 0) ≡ false = ge→ltb _ _ (omega time_laws) in
      rw (h, nonneg) (omega time_laws)
  | inr h ↦ let neg : ltb_ℤ tv.sec (pos 0) ≡ true = ground arith in rw (h, neg) refl
]

magnitude_exact :
    (tv : Timeval)
    → tv.sec <ℤ pos 0
    → ((magnitude tv).sec *ℤ 1000000 -ℤ (magnitude tv).usec ≡ get_usecs tv)
      × ((magnitude tv).sec ≤ℤ pos 0)
unfolding magnitude
magnitude_exact tv neg = elim (Bool-cases (ltb_ℤ (pos 0) tv.usec)) [
  | inl h ↦ rw h (omega time_laws, omega time_laws)
  | inr h ↦ rw h (omega time_laws, omega time_laws)
]

nonneg-signed_usecs : (tv : Timeval) → pos 0 ≤ℤ tv.sec → signed_usecs tv ≡ get_usecs tv
unfolding signed_usecs get_usecs
nonneg-signed_usecs tv h = rw (ge→ltb _ _ h) refl

borrow-nonneg : (tv : Timeval) → pos 0 <ℤ tv.sec → pos 0 ≤ℤ (borrow tv).sec
unfolding borrow
borrow-nonneg tv h = elim (Bool-cases (ltb_ℤ tv.usec (pos 0))) [
  | inl k ↦ rw k (omega time_laws)
  | inr k ↦ rw k (omega time_laws)
]

fix_sign-signed_usecs : (d : Timeval) → signed_usecs (fix_sign d) ≡ get_usecs d
unfolding fix_sign
fix_sign-signed_usecs d = elim (Bool-cases (ltb_ℤ (pos 0) d.sec)) [
  | inl h ↦
      rw h (nonneg-signed_usecs (borrow d) (borrow-nonneg d (ltb→lt _ _ h)) ∙ borrow-get_usecs d)
  | inr h ↦ rw h (elim (Bool-cases (ltb_ℤ d.sec (pos 0))) [
    | inl k ↦
        let (exact, le) = magnitude_exact d (ltb→lt _ _ k) in
        rw k (restore_sign-signed_usecs (magnitude d) le ∙ exact)
    | inr k ↦ rw k (nonneg-signed_usecs d (ltb→ge _ _ k))
  ])
]

-- `negtimersub` computes the difference exactly, for every two times: the result, read with its sign,
-- stands for the difference of the microseconds of the two.
pub negtimersub-signed_usecs :
    (a b : Timeval) → signed_usecs (negtimersub a b) ≡ get_usecs a -ℤ get_usecs b
unfolding negtimersub
negtimersub-signed_usecs a b =
    fix_sign-signed_usecs (record { sec = a.sec -ℤ b.sec; usec = a.usec -ℤ b.usec })
    ∙ omega time_laws

-- For two times whose microseconds are a fraction of a second: `timevaladd` gives such a time, worth
-- the sum, and `timevalsub` gives such a time, worth the difference.
pub timeval_arithmetic :
    (a b : Timeval)
    → IsNormal a
    → IsNormal b
    → IsNormal (timevaladd a b)
      × (get_usecs (timevaladd a b) ≡ get_usecs a +ℤ get_usecs b)
      × IsNormal (timevalsub a b)
      × (get_usecs (timevalsub a b) ≡ get_usecs a -ℤ get_usecs b)
unfolding timevaladd timevalsub
timeval_arithmetic a b ha hb = (
  timevalfix-IsNormal (record { sec = a.sec +ℤ b.sec; usec = a.usec +ℤ b.usec }) (omega time_laws)
      (omega time_laws),
  timevaladd-get_usecs a b,
  timevalfix-IsNormal (record { sec = a.sec -ℤ b.sec; usec = a.usec -ℤ b.usec }) (omega time_laws)
      (omega time_laws),
  timevalsub-get_usecs a b,
)
