-- ===== src/Dump/SojournNumbers.antt =====
-- The sequence numbers of the lines that calculateSojournTime reads.
use analyse_tcp.Prelude.{
  ℕ, ◌+◌, ◌-◌, ◌*◌, ◌/◌, ◌≤◌, ◌<◌, ◌≡◌, refl, ◌∙◌, false, Bool-cases, inl, inr, ◌&&◌, ◌||◌, ltb,
  leb, if◌then◌else◌, arith, Result, ok, err, Fault,
}
use analyse_tcp.Words.{u32_mod, u64_mod, add32, add64, sub64, sub32}
use analyse_tcp.Seq.{after_or_equal, relative_of_wrap_index, get_relative_sequence_number}
use analyse_tcp.Conn.{Connection, RelativeSeqType, relative_sequence_number}

-- What the numbers of a line are mapped to.
abbrev pub sojourn_number : ℕ → ℕ → Result ℕ
sojourn_number seq first =
    let near = leb u32_mod (first + seq + 1) in
    if leb first seq && (ltb seq 2147483648 || near)
    then ok (seq - first)
    else if ltb seq 2147483648 && near
    then ok (seq + u32_mod - first)
    else err Fault.assertion

-- The three quotients of the index by 2^32.
index_zero :
    (seq first w : ℕ)
    → seq < u32_mod
    → first < u32_mod
    → w < u32_mod
    → relative_of_wrap_index seq first w
      ≡ (if leb first seq then ok (seq - first) else err Fault.assertion)
unfolding relative_of_wrap_index
index_zero seq first w hs hf hw =
    let zero_index : w / u32_mod ≡ 0 = omega arith in rw zero_index (ground arith)

index_one :
    (seq first w : ℕ)
    → seq < u32_mod
    → first < u32_mod
    → u32_mod ≤ w
    → w < 2 * u32_mod
    → relative_of_wrap_index seq first w ≡ ok (seq + u32_mod - first)
unfolding relative_of_wrap_index
index_one seq first w hs hf lo hi = let one : w / u32_mod ≡ 1 = omega arith in rw one (ground arith)

index_below_zero :
    (seq first w : ℕ)
    → seq < u32_mod
    → first < u32_mod
    → u64_mod ≤ w + u32_mod
    → w < u64_mod
    → relative_of_wrap_index seq first w ≡ err Fault.assertion
unfolding relative_of_wrap_index
index_below_zero seq first w hs hf lo hi =
    let last : w / u32_mod ≡ 4294967295 = omega arith in rw last (ground arith)

-- The index that the number gets.
wrap_index_lem :
    (seq first : ℕ)
    → seq < u32_mod
    → first < u32_mod
    → get_relative_sequence_number seq first 0 0 ≡ (
        if ltb seq 2147483648
        then relative_of_wrap_index seq first (first + 1 + seq)
        else relative_of_wrap_index seq first (sub64 (first + 1) (u32_mod - seq)))
unfolding get_relative_sequence_number after_or_equal
wrap_index_lem seq first hs hf =
    let start : add64 (add64 first 0) 1 ≡ first + 1 = omega arith in
    let none_below : ltb seq 0 ≡ false = ground arith in
    let same : sub32 seq 0 ≡ seq = omega arith in
    elim (Bool-cases (ltb seq 2147483648)) [
      | inl low ↦
          let up : add64 (first + 1) seq ≡ first + 1 + seq = omega arith in
          rw (start, none_below, same, low, up) refl
      | inr high ↦
          let down : add32 (sub32 0 seq) 0 ≡ u32_mod - seq = ground arith in
          rw (start, none_below, same, high, down) refl
    ]

-- The numbers of the newest line are those that the constructor sets, 0 and 0. A number not before the first
-- one is mapped exactly if it is below 2^31 or if its sum with the first one is at least 2^32 - 1; one that is before
-- the first one is taken as wrapped around if it is below 2^31 and that sum is; any other
-- number meets the assertion.
pub relative_sequence_number-sojourn_number :
    (seq : ℕ) (c : Connection)
    → seq < u32_mod
    → c.rm.first_seq < u32_mod
    → c.last_largest_sojourn_end_seq ≡ 0
    → c.last_largest_sojourn_seq_absolute ≡ 0
    → relative_sequence_number seq RelativeSeqType.relseq_soj_seq c
      ≡ sojourn_number seq c.rm.first_seq
unfolding relative_sequence_number
relative_sequence_number-sojourn_number seq c hs hf no_end no_absolute =
    let first = c.rm.first_seq in
    rw (no_end, no_absolute)
      (wrap_index_lem seq first hs hf ∙ elim (Bool-cases (ltb seq 2147483648)) [
        | inl low ↦ rw low (elim (Bool-cases (leb u32_mod (first + seq + 1))) [
          | inl near ↦
              let behind : leb first seq ≡ false = ground arith in
              rw (near, behind)
                (index_one seq first (first + 1 + seq) hs hf (ground arith) (omega arith))
          | inr far ↦
              rw far (index_zero seq first (first + 1 + seq) hs hf (ground arith) ∙ ground arith)
        ])
        | inr high ↦ rw high (elim (Bool-cases (leb u32_mod (first + seq + 1))) [
          | inl near ↦ rw near (
              index_zero seq first (sub64 (first + 1) (u32_mod - seq)) hs hf (ground arith)
              ∙ ground arith)
          | inr far ↦ rw far (
              index_below_zero seq first (sub64 (first + 1) (u32_mod - seq)) hs hf (ground arith)
                (ground arith)
              ∙ ground arith)
        ])
      ])

-- What a line is mapped to is small.
pub sojourn_number_small :
    (seq first r : ℕ) → seq < u32_mod → sojourn_number seq first ≡ ok r → r ≤ 9999999999
sojourn_number_small seq first r hs e = ground arith
