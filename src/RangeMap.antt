-- ===== src/RangeMap.antt =====
-- `map<seq64_t, ByteRange*>` as RangeManager uses it: the entries in the order of their keys. An
-- iterator is the key of its entry, and `end()` is `none`. `insert` leaves a key that is there alone.
pub mod Order
pub mod Cover
pub mod Search
pub mod Pieces
use analyse_tcp.Prelude.{
  ℕ, ◌≤◌, ◌<◌, Bool, true, false, ◌&&◌, ◌||◌, ltb, leb, ◌==◌, if◌then◌else◌, Option, none, some,
  List, [], ◌∷◌,
}
use analyse_tcp.Range.{ByteRange}

abbrev pub RangeMap : Type 0
RangeMap = List (ℕ × ByteRange)

unfoldable pub find : ℕ → RangeMap → Option ByteRange
find k [] = none
find k ((j, br) ∷ m) = if j == k then some br else find k m

unfoldable pub insert : ℕ → ByteRange → RangeMap → RangeMap
insert k v [] = (k, v) ∷ []
insert k v ((j, br) ∷ m) =
    if ltb k j then (k, v) ∷ (j, br) ∷ m else if j == k then (j, br) ∷ m else (j, br) ∷ insert k v m

-- `it->second` is given a new value.
unfoldable pub set : ℕ → ByteRange → RangeMap → RangeMap
set k v [] = []
set k v ((j, br) ∷ m) = if j == k then (j, v) ∷ m else (j, br) ∷ set k v m

-- The entry behind that of the key.
unfoldable pub next : ℕ → RangeMap → Option (ℕ × ByteRange)
next k [] = none
next k ((j, br) ∷ m) = if ltb k j then some (j, br) else next k m

-- The entries from one before lower_bound(k) on, or from the first if that is begin().
unfoldable pub from_before : ℕ → RangeMap → RangeMap
from_before k [] = []
from_before k (e ∷ []) = e ∷ []
from_before k (e ∷ f ∷ m) =
    let rest = from_before k (f ∷ m) in if ltb f.0 k then rest else e ∷ f ∷ m

-- The entries before upper_bound(k).
unfoldable pub up_to : ℕ → RangeMap → RangeMap
up_to k [] = []
up_to k ((j, br) ∷ m) = if leb j k then (j, br) ∷ up_to k m else []

-- The first entry whose range holds the byte at `at`.
unfoldable pub containing : ℕ → RangeMap → Option (ℕ × ByteRange)
containing at [] = none
containing at ((k, br) ∷ m) =
    if leb br.start_seq at && ltb at br.end_seq then some (k, br) else containing at m

abbrev pub is_empty : RangeMap → Bool
is_empty [] = true
is_empty (e ∷ m) = false
