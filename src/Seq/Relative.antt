-- ===== src/Seq/Relative.antt =====
-- What `getRelativeSequenceNumber` of Connection.cc computes: where it recovers the true position of a
-- byte in the stream, and the two classes of sequence numbers where it does not.
use analyse_tcp.Prelude.{
  ℕ, ◌+◌, ◌*◌, ◌/◌, ◌%◌, ◌≤◌, ◌<◌, ◌≡◌, ◌≢◌, ◌∙◌, true, false, ltb, ok, arith, ◌⊎◌, inl, inr,
  Bool-cases, tests,
}
use analyse_tcp.Words.{u32_mod, invalid_seq, add64, sub64, sub32, add32}
use analyse_tcp.Seq.{
  before, after_or_equal, relative_of_wrap_index, get_relative_sequence_number, absolute_seq,
}

module _ (seq abs first largest r p q : ℕ) (hs : seq < u32_mod) (ha : abs < u32_mod)
    (hf : first < u32_mod) (eabs : first + largest ≡ abs + p * u32_mod)
    (eseq : first + r ≡ seq + q * u32_mod) (hl : largest ≤ 9999999999)
    (above : r < largest + 2147483648) (below : largest ≤ r + 2147483648) where
  newer_wrapped :
      ltb seq abs ≡ true
      → before seq abs ≡ false
      → add64 (add64 (add64 first largest) 1) (add32 (sub32 0 abs) seq) ≡ first + r + 1
  unfolding before
  newer_wrapped h k = omega tests

  older :
      ltb seq abs ≡ true
      → before seq abs ≡ true
      → sub64 (add64 (add64 first largest) 1) (sub32 abs seq) ≡ first + r + 1
  unfolding before
  older h k = omega tests

  newer :
      ltb seq abs ≡ false
      → after_or_equal abs seq ≡ true
      → add64 (add64 (add64 first largest) 1) (sub32 seq abs) ≡ first + r + 1
  unfolding after_or_equal
  newer h k = omega tests

  older_wrapped :
      ltb seq abs ≡ false
      → after_or_equal abs seq ≡ false
      → sub64 (add64 (add64 first largest) 1) (add32 (sub32 0 seq) abs) ≡ first + r + 1
  unfolding after_or_equal
  older_wrapped h k = omega tests

  -- In the window every branch but the rejecting one computes the same wrap index.
  in_window :
      (ltb seq abs ≡ true → before seq abs ≡ true → before seq first ≡ false)
      → get_relative_sequence_number seq first largest abs
        ≡ relative_of_wrap_index seq first (first + r + 1)
  unfolding get_relative_sequence_number
  in_window not_first = elim (Bool-cases (ltb seq abs)) [
    | inl h ↦ elim (Bool-cases (before seq abs)) [
      | inl k ↦ rw (h, k, not_first h k, older h k)
      | inr k ↦ rw (h, k, newer_wrapped h k)
    ]
    | inr h ↦ elim (Bool-cases (after_or_equal abs seq)) [
      | inl k ↦ rw (h, k, newer h k)
      | inr k ↦ rw (h, k, older_wrapped h k)
    ]
  ]

  not_before_first :
      (r % u32_mod < 2147483648) ⊎ (largest ≤ r)
      → ltb seq abs ≡ true
      → before seq abs ≡ true
      → before seq first ≡ false
  unfolding before
  not_before_first (inl small) h k = ground arith
  not_before_first (inr le) h k = absurd (omega tests)

  -- Data older than the newest, a multiple of 4 GiB plus 2 GiB or more into the stream.
  taken_for_earlier :
      r < largest
      → 2147483648 ≤ r % u32_mod
      → seq < abs
      → get_relative_sequence_number seq first largest abs ≡ ok invalid_seq
  unfolding get_relative_sequence_number before
  taken_for_earlier old half lt =
      let seq_below : ltb seq abs ≡ true = ground arith in
      let seq_before : before seq abs ≡ true = ground arith in
      let before_first : before seq first ≡ true = ground arith in
      rw (seq_below, seq_before, before_first)

module _ (seq first r q : ℕ) (hs : seq < u32_mod) (hf : first < u32_mod)
    (eseq : first + r ≡ seq + q * u32_mod) where
  exact :
      r ≤ 9999999999 → seq ≢ 4294967295 → relative_of_wrap_index seq first (first + r + 1) ≡ ok r
  unfolding relative_of_wrap_index
  exact hr ne = ground arith

  too_high :
      r + u32_mod ≤ 9999999999
      → seq ≡ 4294967295
      → relative_of_wrap_index seq first (first + r + 1) ≡ ok (r + u32_mod)
  unfolding relative_of_wrap_index
  too_high hr e = ground arith

pub absolute_seq-mod :
    (first r : ℕ) → first < u32_mod → r ≤ 9999999999 → absolute_seq first r ≡ (first + r) % u32_mod
unfolding absolute_seq
absolute_seq-mod first r hf hr = omega arith

module _ (first largest r : ℕ) where
  -- `in_window` for the numbers that `absolute_seq` gives.
  absolute_in_window :
      first < u32_mod
      → largest ≤ 9999999999
      → r ≤ 9999999999
      → r < largest + 2147483648
      → largest ≤ r + 2147483648
      → (r % u32_mod < 2147483648) ⊎ (largest ≤ r)
      → get_relative_sequence_number
          (absolute_seq first r)
          first
          largest
          (absolute_seq first largest)
        ≡ relative_of_wrap_index (absolute_seq first r) first (first + r + 1)
  absolute_in_window hf hl hr above below side =
      let seq = absolute_seq first r in
      let abs = absolute_seq first largest in
      let eq = absolute_seq-mod first r hf hr in
      let el = absolute_seq-mod first largest hf hl in
      let p = (first + largest) / u32_mod in
      let q = (first + r) / u32_mod in
      let hs : seq < u32_mod = omega arith in
      let ha : abs < u32_mod = omega arith in
      let eabs : first + largest ≡ abs + p * u32_mod = omega arith in
      let eseq : first + r ≡ seq + q * u32_mod = omega arith in
      in_window seq abs first largest r p q hs ha hf eabs eseq hl above below
        (not_before_first seq abs first largest r p q hs ha hf eabs eseq hl above below side)

  -- For a connection whose first sequence number is a 32-bit word, with the newest byte at relative
  -- position `largest` and a byte at relative position `r`, both at most 9999999999: if `r` is less
  -- than 2^31 ahead of `largest` and at most 2^31 behind it, if `r` is not behind `largest` or `r`
  -- modulo 2^32 is below 2^31, and if the absolute number of `r` is not 2^32 - 1, then
  -- `getRelativeSequenceNumber` maps the absolute numbers that `absolute_seq` gives back to `r`.
  pub relative-absolute_seq :
      first < u32_mod
      → largest ≤ 9999999999
      → r ≤ 9999999999
      → r < largest + 2147483648
      → largest ≤ r + 2147483648
      → (r % u32_mod < 2147483648) ⊎ (largest ≤ r)
      → absolute_seq first r ≢ 4294967295
      → get_relative_sequence_number
          (absolute_seq first r)
          first
          largest
          (absolute_seq first largest)
        ≡ ok r
  relative-absolute_seq hf hl hr above below side ne =
      let eq = absolute_seq-mod first r hf hr in
      absolute_in_window hf hl hr above below side
      ∙ exact (absolute_seq first r) first r ((first + r) / u32_mod) (omega arith) hf (omega arith)
          hr ne

  -- The same, but the absolute number of `r` is 2^32 - 1, `r` is not behind `largest`, and `r` plus
  -- 2^32 is at most 9999999999: the result is 2^32 too high.
  pub relative_of_last_word :
      first < u32_mod
      → largest ≤ 9999999999
      → r + u32_mod ≤ 9999999999
      → r < largest + 2147483648
      → largest ≤ r
      → absolute_seq first r ≡ 4294967295
      → get_relative_sequence_number
          (absolute_seq first r)
          first
          largest
          (absolute_seq first largest)
        ≡ ok (r + u32_mod)
  relative_of_last_word hf hl hr above le last =
      let eq = absolute_seq-mod first r hf (omega arith) in
      absolute_in_window hf hl (omega arith) above (omega arith) (inr le)
      ∙ too_high (absolute_seq first r) first r ((first + r) / u32_mod) (omega arith) hf
          (omega arith) hr last

  -- A byte at `r` that is behind `largest` by at most 2^31 and whose absolute number is below that of
  -- `largest` gets the invalid number, as if it were older than the connection, whenever `r` modulo
  -- 2^32 is 2^31 or more.
  pub relative_past_half :
      first < u32_mod
      → largest ≤ 9999999999
      → r < largest
      → largest ≤ r + 2147483648
      → 2147483648 ≤ r % u32_mod
      → absolute_seq first r < absolute_seq first largest
      → get_relative_sequence_number
          (absolute_seq first r)
          first
          largest
          (absolute_seq first largest)
        ≡ ok invalid_seq
  relative_past_half hf hl old below half lt =
      let seq = absolute_seq first r in
      let eq = absolute_seq-mod first r hf (omega arith) in
      let el = absolute_seq-mod first largest hf hl in
      taken_for_earlier seq (absolute_seq first largest) first largest r
        ((first + largest) / u32_mod) ((first + r) / u32_mod) (omega arith) (omega arith) hf
        (omega arith) (omega arith) hl (omega arith) below old half lt
