-- ===== src/RangeMap/Search.antt =====
-- The search of insertByteRange for the range that holds a byte, over a part of the map, finds what a
-- search of the whole map finds.
use analyse_tcp.Prelude.{
  ℕ, ◌≤◌, ◌<◌, ◌≡◌, refl, ◌∙◌, sym, true, false, ltb, none, some, [], ◌∷◌, arith, Bool-cases, inl,
  inr,
}
use analyse_tcp.Range.{ByteRange}
use analyse_tcp.RangeMap.{RangeMap, find, from_before, up_to, containing}
use analyse_tcp.RangeMap.Order.{Disjoint, beyond}
use analyse_tcp.RangeMap.Cover.{covers}

containing_low : (at lo : ℕ) (m : RangeMap) → Disjoint lo m → at < lo → containing at m ≡ none
unfolding containing
containing_low at lo [] d h = refl
containing_low at lo ((k, br) ∷ m) d h = ground (arith, containing_low at (beyond k br) m d.3)

pub containing-up_to :
    (at e lo : ℕ) (m : RangeMap)
    → Disjoint lo m
    → at ≤ e
    → containing at (up_to e m) ≡ containing at m
unfolding containing up_to
containing-up_to at e lo [] d h = refl
containing-up_to at e lo ((k, br) ∷ m) d h =
    ground
      (arith, containing-up_to at e (beyond k br) m d.3 h, containing_low at (beyond k br) m d.3)

from_before-cons :
    (at lo : ℕ) (e f : ℕ × ByteRange) (m : RangeMap)
    → Disjoint lo (e ∷ f ∷ m)
    → ltb f.0 at ≡ true
    → containing at (e ∷ f ∷ m) ≡ containing at (f ∷ m)
unfolding containing
from_before-cons at lo (k, b) (j, c) m d h = ground arith

pub containing-from_before :
    (at lo : ℕ) (m : RangeMap) → Disjoint lo m → containing at (from_before at m) ≡ containing at m
unfolding from_before
containing-from_before at lo [] d = refl
containing-from_before at lo (e ∷ []) d = refl
containing-from_before at lo ((k, b) ∷ f ∷ m) d = elim (Bool-cases (ltb f.0 at)) [
  | inl h ↦ rw h (
      containing-from_before at (beyond k b) (f ∷ m) d.3
      ∙ sym (from_before-cons at lo (k, b) f m d h))
  | inr h ↦ rw h refl
]

from_before-Disjoint : (at lo : ℕ) (m : RangeMap) → Disjoint lo m → Disjoint lo (from_before at m)
unfolding from_before
from_before-Disjoint at lo [] d = tt
from_before-Disjoint at lo (e ∷ []) d = d
from_before-Disjoint at lo ((k, b) ∷ f ∷ m) d = elim (Bool-cases (ltb f.0 at)) [
  | inl h ↦ rw h (from_before-Disjoint at lo (f ∷ m) (omega arith, d.3.1, d.3.2, d.3.3))
  | inr h ↦ rw h d
]

pub containing-window :
    (at e lo : ℕ) (m : RangeMap)
    → Disjoint lo m
    → at ≤ e
    → containing at (up_to e (from_before at m)) ≡ containing at m
containing-window at e lo m d h =
    containing-up_to at e lo (from_before at m) (from_before-Disjoint at lo m d) h
    ∙ containing-from_before at lo m d

pub containing-find :
    (at lo k : ℕ) (m : RangeMap) (br : ByteRange)
    → Disjoint lo m
    → containing at m ≡ some (k, br)
    → (lo ≤ k) × (find k m ≡ some br) × (br.start_seq ≤ at) × (at < br.end_seq)
unfolding containing find
containing-find at lo k [] br d e = cc
containing-find at lo k ((j, c) ∷ m) br d e =
    ground (arith, containing-find at (beyond j c) k m br d.3)

pub containing-none : (at : ℕ) (m : RangeMap) → containing at m ≡ none → covers at m ≡ false
unfolding containing covers
containing-none at [] e = refl
containing-none at ((j, c) ∷ m) e = ground (arith, containing-none at m)
