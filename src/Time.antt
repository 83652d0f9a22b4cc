-- ===== src/Time.antt =====
-- time_util.h and time_util.c: the arithmetic of `timeval`s. Seconds and microseconds are `long`s,
-- taken as integers without a bound. `timersub` and `timercmp` are macros of <sys/time.h>.
pub mod Exact
mod Tests
use analyse_tcp.Prelude.{ℕ, ◌-◌, ◌/◌, Bool, ◌&&◌, ◌||◌, if◌then◌else◌, suc}
use analyse_tcp.Prelude.Int.{
  ℤ, pos, negsuc, pos_part, neg_part, sub_ℕ, ◌+ℤ◌, ◌-ℤ◌, ◌*ℤ◌, ltb_ℤ, leb_ℤ, eqb_ℤ,
}

pub record Timeval : Type 0 where
  pub sec : ℤ
  pub usec : ℤ

abbrev pub zero_time : Timeval
zero_time = record { sec = pos 0; usec = pos 0 }

-- `tv_sec == 0 && tv_usec == 0`
abbrev pub is_zero : Timeval → Bool
is_zero tv = eqb_ℤ tv.sec (pos 0) && eqb_ℤ tv.usec (pos 0)

-- `operator==` of common.cc.
unfoldable pub timeval_eq : Timeval → Timeval → Bool
timeval_eq lhs rhs = eqb_ℤ lhs.sec rhs.sec && eqb_ℤ lhs.usec rhs.usec

-- timercmp(a, b, <)
unfoldable pub timer_lt : Timeval → Timeval → Bool
timer_lt a b = if eqb_ℤ a.sec b.sec then ltb_ℤ a.usec b.usec else ltb_ℤ a.sec b.sec

-- The quotient of C, which rounds towards zero.
abbrev pub quot_ℤ : ℤ → ℕ → ℤ
quot_ℤ a k = sub_ℕ (pos_part a / k) (neg_part a / k)

unfoldable pub get_usecs : Timeval → ℤ
get_usecs tv = tv.sec *ℤ 1000000 +ℤ tv.usec

unfoldable pub get_msecs : Timeval → ℤ
get_msecs tv = tv.sec *ℤ 1000 +ℤ quot_ℤ tv.usec 1000

-- One second is taken for a negative number of microseconds.
borrow : Timeval → Timeval
borrow tv =
    if ltb_ℤ tv.usec (pos 0)
    then record { sec = tv.sec -ℤ pos 1; usec = tv.usec +ℤ pos 1000000 }
    else tv

carry : Timeval → Timeval
carry tv =
    if leb_ℤ (pos 1000000) tv.usec
    then record { sec = tv.sec +ℤ pos 1; usec = tv.usec -ℤ pos 1000000 }
    else tv

unfoldable pub timersub : Timeval → Timeval → Timeval
unfolding borrow
timersub a b = borrow (record { sec = a.sec -ℤ b.sec; usec = a.usec -ℤ b.usec })

unfoldable pub timevalfix : Timeval → Timeval
unfolding borrow carry
timevalfix tv = carry (borrow tv)

unfoldable pub timevaladd : Timeval → Timeval → Timeval
unfolding timevalfix
timevaladd to val = timevalfix (record { sec = to.sec +ℤ val.sec; usec = to.usec +ℤ val.usec })

unfoldable pub timevalsub : Timeval → Timeval → Timeval
unfolding timevalfix
timevalsub to val = timevalfix (record { sec = to.sec -ℤ val.sec; usec = to.usec -ℤ val.usec })

-- The branch of `negtimersub` for a negative difference of seconds: first the microseconds are made
-- a magnitude, and then they get the sign back if no full second is left.
magnitude : Timeval → Timeval
magnitude tv =
    if ltb_ℤ (pos 0) tv.usec
    then record { sec = tv.sec +ℤ pos 1; usec = pos 1000000 -ℤ tv.usec }
    else record { sec = tv.sec; usec = pos 0 -ℤ tv.usec }

restore_sign : Timeval → Timeval
restore_sign tv = if eqb_ℤ tv.sec (pos 0) then record tv { usec = pos 0 -ℤ tv.usec } else tv

fix_sign : Timeval → Timeval
unfolding borrow magnitude restore_sign
fix_sign diff =
    if ltb_ℤ (pos 0) diff.sec
    then borrow diff
    else if ltb_ℤ diff.sec (pos 0)
    then restore_sign (magnitude diff)
    else diff

-- The macro `negtimersub`.
unfoldable pub negtimersub : Timeval → Timeval → Timeval
unfolding fix_sign
negtimersub a b = fix_sign (record { sec = a.sec -ℤ b.sec; usec = a.usec -ℤ b.usec })
