-- ===== src/Time/Tests.antt =====
-- Times at concrete inputs.
use analyse_tcp.Prelude.{◌≡◌}
use analyse_tcp.Prelude.Int.{pos, ◌+ℤ◌, ◌-ℤ◌, int_laws}
use analyse_tcp.Time.{Timeval, negtimersub, timevaladd, timevalsub, get_usecs}
use analyse_tcp.Time.Exact.{IsNormal, signed_usecs, negtimersub-signed_usecs, timeval_arithmetic}

abbrev early : Timeval
early = record { sec = pos 7; usec = pos 900000 }

abbrev late : Timeval
late = record { sec = pos 9; usec = pos 200000 }

negtimersub-signed_usecs_example :
    signed_usecs (negtimersub early late) ≡ get_usecs early -ℤ get_usecs late
negtimersub-signed_usecs_example = negtimersub-signed_usecs early late

early-IsNormal : IsNormal early
early-IsNormal = (omega int_laws, omega int_laws)

late-IsNormal : IsNormal late
late-IsNormal = (omega int_laws, omega int_laws)

timeval_arithmetic_example :
    IsNormal (timevaladd early late)
    × (get_usecs (timevaladd early late) ≡ get_usecs early +ℤ get_usecs late)
    × IsNormal (timevalsub early late)
    × (get_usecs (timevalsub early late) ≡ get_usecs early -ℤ get_usecs late)
timeval_arithmetic_example = timeval_arithmetic early late early-IsNormal late-IsNormal
