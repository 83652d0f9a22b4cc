-- ===== src/RangeMap/Order.antt =====
-- The order of the range map, kept by its operations: the keys ascend, each is the start of its
-- range, and no two ranges overlap.
use analyse_tcp.Prelude.{ℕ, ◌+◌, ◌≤◌, ◌<◌, ◌≡◌, ◌⊎◌, inr, max, Option, none, some, [], ◌∷◌, arith}
use analyse_tcp.Range.{ByteRange}
use analyse_tcp.Range.Split.{IsRange}
use analyse_tcp.RangeMap.{RangeMap, find, insert, set, next}

-- The first key that may follow the entry.
abbrev pub beyond : ℕ → ByteRange → ℕ
beyond k br = max br.end_seq (k + 1)

abbrev pub Disjoint : ℕ → RangeMap → Type 0
Disjoint lo [] = Unit {0}
Disjoint lo ((k, br) ∷ m) = (lo ≤ k) × (br.start_seq ≡ k) × IsRange br × Disjoint (beyond k br) m

pub Disjoint-mono : (lo lo' : ℕ) (m : RangeMap) → lo' ≤ lo → Disjoint lo m → Disjoint lo' m
Disjoint-mono lo lo' [] h d = tt
Disjoint-mono lo lo' ((k, br) ∷ m) h (a, b, c, d) = (omega arith, b, c, d)

-- An entry that is found is well formed and starts at its key.
pub find-Disjoint :
    (k lo : ℕ) (m : RangeMap) (br : ByteRange)
    → Disjoint lo m
    → find k m ≡ some br
    → (lo ≤ k) × (br.start_seq ≡ k) × IsRange br
unfolding find
find-Disjoint k lo [] br d e = cc
find-Disjoint k lo ((j, b) ∷ m) br d e = ground (arith, find-Disjoint k (beyond j b) m br d.3)

-- The end is no further than the next key.
abbrev pub FitsBefore : ℕ → Option (ℕ × ByteRange) → Type 0
FitsBefore e none = Unit {0}
FitsBefore e (some (j, br)) = e ≤ j

next-Disjoint : (e k lo : ℕ) (m : RangeMap) → Disjoint lo m → e ≤ lo → FitsBefore e (next k m)
unfolding next
next-Disjoint e k lo [] d h = tt
next-Disjoint e k lo ((j, b) ∷ m) d h = ground (arith, next-Disjoint e k (beyond j b) m d.3)

-- The entry behind another starts at its key.
pub next-some :
    (k lo j : ℕ) (m : RangeMap) (b : ByteRange)
    → Disjoint lo m
    → next k m ≡ some (j, b)
    → (k < j) × (b.start_seq ≡ j)
unfolding next
next-some k lo j [] b d e = cc
next-some k lo j ((i, c) ∷ m) b d e = ground (arith, next-some k (beyond i c) j m b d.3)

-- A range ends before the next one starts.
pub FitsBefore-next :
    (e k lo : ℕ) (m : RangeMap) (br : ByteRange)
    → Disjoint lo m
    → find k m ≡ some br
    → e ≤ br.end_seq
    → FitsBefore e (next k m)
unfolding find next
FitsBefore-next e k lo [] br d h le = tt
FitsBefore-next e k lo ((j, b) ∷ m) br d h le = ground (
  arith,
  FitsBefore-next e k (beyond j b) m br d.3,
  next-Disjoint e k (beyond j b) m d.3,
  find-Disjoint k (beyond j b) m br d.3,
)

-- A range can be given another end, up to the next key.
pub set-Disjoint :
    (k lo : ℕ) (m : RangeMap) (br v : ByteRange)
    → Disjoint lo m
    → find k m ≡ some br
    → v.start_seq ≡ k
    → IsRange v
    → FitsBefore v.end_seq (next k m)
    → Disjoint lo (set k v m)
unfolding find set next
set-Disjoint k lo [] br v d e s r f = tt
set-Disjoint k lo ((j, b) ∷ []) br v d e s r f = ground arith
set-Disjoint k lo ((j, b) ∷ (i, c) ∷ m) br v d e s r f =
    ground (arith, set-Disjoint k (beyond j b) ((i, c) ∷ m) br v d.3)

-- No range or key of the map lies in the interval from `a` to `b`.
abbrev pub Room : ℕ → ℕ → RangeMap → Type 0
Room a b [] = Unit {0}
Room a b ((k, br) ∷ m) = ((beyond k br ≤ a) ⊎ (max b (a + 1) ≤ k)) × Room a b m

pub insert-Disjoint :
    (k lo : ℕ) (m : RangeMap) (v : ByteRange)
    → Disjoint lo m
    → lo ≤ k
    → v.start_seq ≡ k
    → IsRange v
    → Room k v.end_seq m
    → Disjoint lo (insert k v m)
unfolding insert
insert-Disjoint k lo [] v d le s r room = (le, s, r, tt)
insert-Disjoint k lo ((j, b) ∷ m) v d le s r room =
    ground (arith, insert-Disjoint k (beyond j b) m v d.3)

pub insert-Room :
    (k a b : ℕ) (m : RangeMap) (v : ByteRange)
    → Room a b m
    → (beyond k v ≤ a) ⊎ (max b (a + 1) ≤ k)
    → Room a b (insert k v m)
unfolding insert
insert-Room k a b [] v room h = (h, tt)
insert-Room k a b ((j, c) ∷ m) v room h = ground (arith, insert-Room k a b m v room.1)

-- What lies below every key.
low-Room : (a b lo : ℕ) (m : RangeMap) → Disjoint lo m → max b (a + 1) ≤ lo → Room a b m
low-Room a b lo [] d h = tt
low-Room a b lo ((j, c) ∷ m) d h =
    (inr (omega arith), low-Room a b (beyond j c) m d.3 (omega arith))

-- A range that is cut leaves room for what is cut off.
pub set-Room :
    (k lo a b : ℕ) (m : RangeMap) (br v : ByteRange)
    → Disjoint lo m
    → find k m ≡ some br
    → k < a
    → v.end_seq ≤ a
    → a < b
    → b ≤ br.end_seq
    → Room a b (set k v m)
unfolding find set
set-Room k lo a b [] br v d e ka va ab bb = tt
set-Room k lo a b ((j, c) ∷ m) br v d e ka va ab bb = ground (
  arith,
  set-Room k (beyond j c) a b m br v d.3,
  low-Room a b (beyond j c) m d.3,
  find-Disjoint k (beyond j c) m br d.3,
)
