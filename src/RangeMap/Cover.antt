-- ===== src/RangeMap/Cover.antt =====
-- Which bytes of the stream the ranges of a map cover, under the operations of the map.
use analyse_tcp.Prelude.{
  ℕ, ◌≤◌, ◌<◌, ◌≡◌, refl, Bool, true, false, not, ltb, leb, ◌&&◌, ◌||◌, some, [], ◌∷◌, arith,
}
use analyse_tcp.Range.{ByteRange}
use analyse_tcp.RangeMap.{RangeMap, find, insert, set}
use analyse_tcp.RangeMap.Order.{Disjoint, Room, beyond, find-Disjoint}

-- The byte at `x` lies between `a` and `b`.
abbrev pub within : ℕ → ℕ → ℕ → Bool
within x a b = leb a x && ltb x b

unfoldable pub covers : ℕ → RangeMap → Bool
covers x [] = false
covers x ((k, br) ∷ m) = within x br.start_seq br.end_seq || covers x m

-- Below the first key nothing is covered.
pub covers_low : (x lo : ℕ) (m : RangeMap) → Disjoint lo m → x < lo → covers x m ≡ false
unfolding covers
covers_low x lo [] d h = refl
covers_low x lo ((k, br) ∷ m) d h = ground (arith, covers_low x (beyond k br) m d.3)

pub find-covers :
    (x k lo : ℕ) (m : RangeMap) (br : ByteRange)
    → Disjoint lo m
    → find k m ≡ some br
    → k ≤ x
    → x < br.end_seq
    → covers x m ≡ true
unfolding find covers
find-covers x k lo [] br d e p q = cc
find-covers x k lo ((j, c) ∷ m) br d e p q = ground (arith, find-covers x k (beyond j c) m br d.3)

pub covers-set :
    (x k lo : ℕ) (m : RangeMap) (br v : ByteRange)
    → Disjoint lo m
    → find k m ≡ some br
    → covers x (set k v m)
      ≡ (within x v.start_seq v.end_seq || (not (within x k br.end_seq) && covers x m))
unfolding find set covers
covers-set x k lo [] br v d e = cc
covers-set x k lo ((j, c) ∷ m) br v d e = ground (
  arith,
  covers-set x k (beyond j c) m br v d.3,
  covers_low x (beyond j c) m d.3,
  find-Disjoint k (beyond j c) m br d.3,
)

pub covers-insert :
    (x k b lo : ℕ) (m : RangeMap) (v : ByteRange)
    → Room k b m
    → covers x (insert k v m) ≡ (within x v.start_seq v.end_seq || covers x m)
unfolding insert covers
covers-insert x k b lo [] v room = refl
covers-insert x k b lo ((j, c) ∷ m) v room = ground (arith, covers-insert x k b lo m v room.1)
