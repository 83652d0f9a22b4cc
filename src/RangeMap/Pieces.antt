-- ===== src/RangeMap/Pieces.antt =====
-- A range that is replaced by its pieces: the map keeps its order and covers the same bytes.
use analyse_tcp.Prelude.{ℕ, ◌≤◌, ◌<◌, ◌≡◌, ◌∙◌, none, max, some, [], ◌∷◌, arith, inr}
use analyse_tcp.Range.{ByteRange}
use analyse_tcp.Range.Split.{IsRange}
use analyse_tcp.RangeMap.{RangeMap, find, insert, set}
use analyse_tcp.RangeMap.Order.{
  Disjoint, Room, beyond, FitsBefore-next, set-Disjoint, insert-Disjoint, set-Room, insert-Room,
}
use analyse_tcp.RangeMap.Cover.{covers, find-covers, covers-set, covers-insert}

-- The end of the last range.
unfoldable pub top : RangeMap → ℕ
top [] = 0
top ((k, br) ∷ m) = max br.end_seq (top m)

pub find-le-top : (k : ℕ) (m : RangeMap) (br : ByteRange) → find k m ≡ some br → br.end_seq ≤ top m
unfolding find top
find-le-top k [] br e = cc
find-le-top k ((j, c) ∷ m) br e = ground (arith, find-le-top k m br)

pub top-set : (k : ℕ) (v : ByteRange) (m : RangeMap) → top (set k v m) ≤ max v.end_seq (top m)
unfolding set top
top-set k v [] = omega arith
top-set k v ((j, c) ∷ m) = ground (arith, top-set k v m)

pub top-insert : (k : ℕ) (v : ByteRange) (m : RangeMap) → top (insert k v m) ≤ max v.end_seq (top m)
unfolding insert top
top-insert k v [] = omega arith
top-insert k v ((j, c) ∷ m) = ground (arith, top-insert k v m)

-- The map keeps its order, covers the same bytes and ends no later.
abbrev pub Refines : RangeMap → RangeMap → Type 0
Refines m m' = Disjoint 0 m' × ((x : ℕ) → covers x m' ≡ covers x m) × (top m' ≤ top m)

module _ (m : RangeMap) (k : ℕ) (br : ByteRange) (d : Disjoint 0 m)
    (found : find k m ≡ some br) where
  -- One range with the same place.
  pub same_piece :
      (v : ByteRange) → v.start_seq ≡ k → v.end_seq ≡ br.end_seq → IsRange v → Refines m (set k v m)
  same_piece v s e r = (
    set-Disjoint k 0 m br v d found s r (FitsBefore-next v.end_seq k 0 m br d found (omega arith)),
    λ x. covers-set x k 0 m br v d found ∙ ground (arith, find-covers x k 0 m br d found),
    omega (arith, top-set k v m, find-le-top k m br found),
  )

  pub two_pieces :
      (a : ℕ) (l r : ByteRange)
      → k < a
      → a < br.end_seq
      → (l.start_seq ≡ k) × (l.end_seq ≡ a) × IsRange l
      → (r.start_seq ≡ a) × (r.end_seq ≡ br.end_seq) × IsRange r
      → Refines m (insert a r (set k l m))
  two_pieces a l r ka ab (ls, le, lr) (rs, re, rr) =
      let order =
        set-Disjoint k 0 m br l d found ls lr
          (FitsBefore-next l.end_seq k 0 m br d found (omega arith)) in
      let room = set-Room k 0 a br.end_seq m br l d found ka (omega arith) ab (omega arith) in
      let room' : Room a r.end_seq (set k l m) = rw re room in
      (
        insert-Disjoint a 0 (set k l m) r order (omega arith) rs rr room',
        λ x.
            covers-insert x a br.end_seq 0 (set k l m) r room
            ∙ ground (arith, find-covers x k 0 m br d found, covers-set x k 0 m br l d found),
        omega (arith, top-insert a r (set k l m), top-set k l m, find-le-top k m br found),
      )

  pub three_pieces :
      (a b : ℕ) (l v r : ByteRange)
      → k < a
      → a < b
      → b < br.end_seq
      → (l.start_seq ≡ k) × (l.end_seq ≡ a) × IsRange l
      → (v.start_seq ≡ a) × (v.end_seq ≡ b) × IsRange v
      → (r.start_seq ≡ b) × (r.end_seq ≡ br.end_seq) × IsRange r
      → Refines m (insert a v (insert b r (set k l m)))
  three_pieces a b l v r ka ab bb (ls, le, lr) (vs, ve, vr) (rs, re, rr) =
      let order =
        set-Disjoint k 0 m br l d found ls lr
          (FitsBefore-next l.end_seq k 0 m br d found (omega arith)) in
      let room_r =
        set-Room k 0 b br.end_seq m br l d found (omega arith) (omega arith) bb (omega arith) in
      let room_r' : Room b r.end_seq (set k l m) = rw re room_r in
      let room_v = set-Room k 0 a b m br l d found ka (omega arith) ab (omega arith) in
      let both : Room a b (insert b r (set k l m)) =
        insert-Room b a b (set k l m) r room_v (inr (omega arith)) in
      let both' : Room a v.end_seq (insert b r (set k l m)) = rw ve both in
      let order_r = insert-Disjoint b 0 (set k l m) r order (omega arith) rs rr room_r' in
      (
        insert-Disjoint a 0 (insert b r (set k l m)) v order_r (omega arith) vs vr both',
        λ x.
            covers-insert x a b 0 (insert b r (set k l m)) v both
            ∙ ground (
              arith,
              find-covers x k 0 m br d found,
              covers-set x k 0 m br l d found,
              covers-insert x b br.end_seq 0 (set k l m) r room_r,
            ),
        omega (
          arith,
          top-insert a v (insert b r (set k l m)),
          top-insert b r (set k l m),
          top-set k l m,
          find-le-top k m br found,
        ),
      )

-- Behind the last range there is room.
pub top-Room :
    (a b lo : ℕ) (m : RangeMap) → Disjoint lo m → top m ≤ a → find a m ≡ none → Room a b m
unfolding top find
top-Room a b lo [] d h e = tt
top-Room a b lo ((j, c) ∷ m) d h e = ground (arith, top-Room a b (beyond j c) m d.3)
