-- ===== src/Packets/Itt.antt =====
-- The times between packets that `genStats` takes from the sorted list.
use analyse_tcp.Prelude.{
  ℕ, suc, ◌≤◌, ◌≡◌, refl, sym, ap, inl, inr, false, ◌==◌, if◌then◌else◌, List, [], ◌∷◌, ◌++◌,
  append-nil, append_assoc, length, ok, arith, Bool-cases,
}
use analyse_tcp.Prelude.Int.{ℤ, pos, ◌-ℤ◌, ◌+ℤ◌, ◌≤ℤ◌}
use analyse_tcp.Intervals.{to_u64}
use analyse_tcp.Stats.{BaseStats}
use analyse_tcp.Stats.Tally.{Tally, add-Tally, sum}
use analyse_tcp.Packets.{SegmentStats, to_int32}
use analyse_tcp.Packets.Gen.{itt_loop}

-- From one time on, no packet is before the one in front of it.
abbrev pub InOrder : ℤ → List SegmentStats → Type 0
InOrder prev [] = Unit {0}
InOrder prev (s ∷ l) = (prev ≤ℤ s.send_time_us) × InOrder s.send_time_us l

-- The times between the packets with a size.
unfoldable pub gaps : ℤ → List SegmentStats → List ℕ
gaps prev [] = []
gaps prev (s ∷ l) =
    if s.size == 0 then gaps prev l else to_u64 (s.send_time_us -ℤ prev) ∷ gaps s.send_time_us l

-- The time of the last packet with a size, or the one given.
unfoldable pub last_time : ℤ → List SegmentStats → ℤ
last_time prev [] = prev
last_time prev (s ∷ l) = if s.size == 0 then last_time prev l else last_time s.send_time_us l

pub InOrder-mono : (p q : ℤ) (l : List SegmentStats) → p ≤ℤ q → InOrder q l → InOrder p l
InOrder-mono p q [] h o = tt
InOrder-mono p q (s ∷ l) h o = (omega arith, o.1)

-- The times between them add up to the time from the first to the last.
pub sum-gaps :
    (prev : ℤ) (l : List SegmentStats)
    → InOrder prev l
    → last_time prev l ≡ prev +ℤ pos (sum (gaps prev l))
unfolding gaps last_time sum ◌+ℤ◌ ◌-ℤ◌
sum-gaps prev [] o = ground arith
sum-gaps prev (s ∷ l) o = elim (Bool-cases (s.size == 0)) [
  | inl z ↦ rw z (sum-gaps prev l (InOrder-mono prev s.send_time_us l o.0 o.1))
  | inr z ↦ rw z (ground (arith, sum-gaps s.send_time_us l o.1))
]

-- The packets `l'` are the packets `l` with their times between.
pub record Stamped (prev : ℤ) (l l' : List SegmentStats) : Type 0 where
  pub order : InOrder prev l → InOrder prev l'
  pub same_gaps : gaps prev l' ≡ gaps prev l
  pub in_number : length l' ≡ length l

pub itt_loop-Tally :
    (prev : ℤ) (l : List SegmentStats) (k : List ℕ) (st : BaseStats)
    → Tally k st
    → st.is_aggregate ≡ false
    → (r : List SegmentStats × BaseStats) × (itt_loop prev l st ≡ ok r)
      × Tally (k ++ gaps prev l) r.1
      × ((p : ℤ) → Stamped p l r.0)
unfolding itt_loop gaps
itt_loop-Tally prev [] k st t own = (
  ([], st),
  refl,
  rw (append-nil k) t,
  λ p. record { order = λ o. o; same_gaps = refl; in_number = refl },
)
itt_loop-Tally prev (s ∷ l) k st t own = elim (Bool-cases (s.size == 0)) [
  | inl z ↦
      let (r, e, t', stamped) = itt_loop-Tally prev l k st t own in
      (
        (s ∷ r.0, r.1),
        rw (itt_loop, z, e) refl,
        rw z t',
        λ p. record {
          order = λ o. (o.0, (stamped s.send_time_us).order o.1);
          same_gaps = rw z ((stamped p).same_gaps);
          in_number = ap suc ((stamped p).in_number);
        },
      )
  | inr z ↦
      let gap = to_u64 (s.send_time_us -ℤ prev) in
      let (mid, e, tm, om) = add-Tally gap k st t own in
      let (r, e', t', stamped) = itt_loop-Tally s.send_time_us l (k ++ gap ∷ []) mid tm om in
      (
        (record s { itt_usec = to_int32 gap } ∷ r.0, r.1),
        rw (itt_loop, z, e, e') refl,
        rw z (rw (sym (append_assoc k (gap ∷ []) (gaps s.send_time_us l))) t'),
        λ p. record {
          order = λ o. (o.0, (stamped s.send_time_us).order o.1);
          same_gaps =
              rw z
                (ap (λ g. to_u64 (s.send_time_us -ℤ p) ∷ g) ((stamped s.send_time_us).same_gaps));
          in_number = ap suc ((stamped p).in_number);
        },
      )
]

pub length-gaps : (prev : ℤ) (l : List SegmentStats) → length (gaps prev l) ≤ length l
unfolding gaps
length-gaps prev [] = omega arith
length-gaps prev (s ∷ l) = ground (arith, length-gaps prev l, length-gaps s.send_time_us l)
