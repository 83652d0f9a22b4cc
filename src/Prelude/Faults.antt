-- ===== src/Prelude/Faults.antt =====
-- The ways a call of the program can end without a result, and the results of such calls. The build
-- modelled is the default one: `assert` is on (NDEBUG is not defined) and DEBUG is not defined.
use mathlib.Core.Path.{◌≡◌, refl}
use mathlib.Core.Bool.{Bool, true, false}
use mathlib.Core.Option.{Option, none, some}

pub data Fault : Type 0 where
  -- An `assert` that does not hold, which aborts the process.
  assertion : Fault
  -- A `std::logic_error` that is thrown.
  logic_error : Fault
  -- An iterator or an index outside its container, or a null pointer that is read.
  out_of_range : Fault
  -- The model's fuel is used up; the theorems on termination exclude it.
  out_of_fuel : Fault

-- What a call leaves: a fault, or its result.
pub data Result {ℓ} (A : Type ℓ) : Type ℓ where
  err : Fault → Result A
  ok : A → Result A

abbrev pub assert : Bool → Result (Unit {0})
assert false = err Fault.assertion
assert true = ok tt

-- A read through an iterator or an index.
abbrev pub or_out_of_range {ℓ} : {A : Type ℓ} → Option A → Result A
or_out_of_range (some value) = ok value
or_out_of_range none = err Fault.out_of_range

-- A fault of a call is one of its caller.
infixl 5 ◌>>=◌ ◌>>◌
abbrev pub ◌>>=◌ {κ ℓ} : {S : Type κ} {T : Type ℓ} → Result S → (S → Result T) → Result T
err fault >>= rest = err fault
ok result >>= rest = rest result

abbrev pub ◌>>◌ {ℓ} : {T : Type ℓ} → Result (Unit {0}) → Result T → Result T
check >> rest = check >>= λ done. rest

pub >>=-eq-ok {κ ℓ} :
    {S : Type κ} {T : Type ℓ} (call : Result S) (rest : S → Result T) {t : T}
    → (call >>= rest) ≡ ok t
    → (s : S) × (call ≡ ok s) × (rest s ≡ ok t)
>>=-eq-ok (err fault) rest e = cc
>>=-eq-ok (ok result) rest e = (result, refl, e)
