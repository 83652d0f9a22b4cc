-- ===== src/Stats/Matched.antt =====
-- What matchReceivedType leaves of the counts of a range, and the bytes of all ranges.
use analyse_tcp.Prelude.{
  ℕ, ◌+◌, ◌≡◌, refl, Bool, ◌==◌, if◌then◌else◌, [], ◌∷◌, arith, Option-cases, inl, inr,
}
use analyse_tcp.Range.{ByteRange, match_received_type, index_from}
use analyse_tcp.RangeMap.{RangeMap}
use analyse_tcp.Stats.Loss.{match_range}

-- The bytes in all the ranges.
unfoldable pub total_bytes : RangeMap → ℕ
total_bytes [] = 0
total_bytes ((k, br) ∷ m) = br.byte_count + total_bytes m

-- The same bytes and the same counts of data.
abbrev pub SameCounts : ByteRange → ByteRange → Type 0
SameCounts br br' =
    (br'.byte_count ≡ br.byte_count)
    × (br'.data_sent_count ≡ br.data_sent_count)
    × (br'.data_retrans_count ≡ br.data_retrans_count)
    × (br'.rdb_count ≡ br.rdb_count)

match_received_type-SameCounts : (br : ByteRange) → SameCounts br ((match_received_type br).0)
unfolding match_received_type
match_received_type-SameCounts br =
    elim (Option-cases (index_from (λ s. s.0 == br.received_tstamp_tcp) br.tstamps_tcp 0)) [
      | inr (i, h) ↦ rw (match_received_type, h) (refl, refl, refl, refl)
      | inl h ↦
          (elim (Option-cases
            (index_from (λ t. t == br.received_tstamp_tcp) br.rdb_tstamps_tcp 0)) [
              | inr (i, g) ↦ rw (match_received_type, h, g) (refl, refl, refl, refl)
              | inl g ↦ rw (match_received_type, h, g) (refl, refl, refl, refl)
            ])
    ]

pub match_range-SameCounts : (w : Bool) (br : ByteRange) → SameCounts br (match_range w br)
unfolding match_range
match_range-SameCounts w br =
    let matched : ByteRange = if w then (match_received_type br).0 else br in
    ground (arith, match_received_type-SameCounts br)
