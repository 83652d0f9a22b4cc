-- ===== src/Dump/OptionRounds.antt =====
-- One round of parseTCPOptions on an option that is laid out well.
use analyse_tcp.Prelude.{
  ℕ, ◌+◌, ◌*◌, ◌≤◌, ◌<◌, ◌≡◌, ◌≢◌, refl, ◌∙◌, true, false, ltb, ◌==◌, Bool-cases, List, [], ◌∷◌,
  ◌++◌, length, arith, inl, inr, ok, ◌>>=◌,
}
use analyse_tcp.Words.{add32, u32_mod}
use analyse_tcp.Range.{DataSeg}
use analyse_tcp.Conn.{Connection, RelativeSeqType}
use analyse_tcp.Dump.Options.{
  onward, read8, read_timestamps, add_sack, read_sacks, read_option, options_round, is_none,
}
use analyse_tcp.Dump.OptionList.{
  TcpOption, nop, timestamps, one_sack, two_sacks, other, word_bytes, encode, kind_of, size_of,
  IsOption, apply_option,
}
use analyse_tcp.Dump.OptionBytes.{get_elem?-behind, read32-word_bytes, >>=-ok, ap-bind}

-- The bytes at `offset` are those of an option, and the options go on at least that far.
module _ (before rest : List ℕ) (len offset : ℕ) (conn : Connection) (type : RelativeSeqType)
    (at : offset ≡ length before) (room : offset < len) (word : len < u32_mod) where
  kind_at : (k : ℕ) (l : List ℕ) → read8 (before ++ (k ∷ l)) offset ≡ ok k
  kind_at k l = rw (get_elem?-behind before (k ∷ l) 0 offset (omega arith)) refl

  size_at : (k n : ℕ) (l : List ℕ) → read8 (before ++ (k ∷ n ∷ l)) (offset + 1) ≡ ok n
  size_at k n l = rw (get_elem?-behind before (k ∷ n ∷ l) 1 (offset + 1) (omega arith)) refl

  timestamps_lem :
      (seg : DataSeg) (v e : ℕ)
      → v < u32_mod
      → e < u32_mod
      → read_timestamps (before ++ encode (timestamps v e) rest) offset seg
        ≡ ok (record seg { tstamp_tcp = v; tstamp_tcp_echo = e })
  unfolding read_timestamps
  timestamps_lem seg v e hv he =
      rw
        (
          read32-word_bytes before (8 ∷ 10 ∷ []) (word_bytes e rest) v 2 (offset + 2) hv refl
              (omega arith),
          read32-word_bytes before (8 ∷ 10 ∷ word_bytes v []) rest e 6 (offset + 6) he refl
              (omega arith),
        )
        refl

  one_sack_lem :
      (seg : DataSeg) (l r : ℕ)
      → l < u32_mod
      → r < u32_mod
      → read_sacks (before ++ encode (one_sack l r) rest) conn offset 1 1 0 seg
        ≡ add_sack conn l r seg
  unfolding read_sacks
  one_sack_lem seg l r hl hr =
      rw
        (
          read32-word_bytes before (5 ∷ 10 ∷ []) (word_bytes r rest) l 2 (offset + 2 + 4 * 1 * 0) hl
              refl (omega arith),
          read32-word_bytes before (5 ∷ 10 ∷ word_bytes l []) rest r 6 (offset + 6 + 4 * 1 * 0) hr
              refl (omega arith),
        )
        (>>=-ok (add_sack conn l r seg))

  two_sacks_lem :
      (seg : DataSeg) (l r k s : ℕ)
      → IsOption (two_sacks l r k s)
      → read_sacks (before ++ encode (two_sacks l r k s) rest) conn offset 2 2 0 seg
        ≡ (add_sack conn l r seg >>= add_sack conn k s)
  unfolding read_sacks
  two_sacks_lem seg l r k s (hl, hr, hk, hs) =
      rw
        (
          read32-word_bytes before (5 ∷ 18 ∷ []) (word_bytes r (word_bytes k (word_bytes s rest))) l
              2 (offset + 2 + 4 * 2 * 0) hl refl (omega arith),
          read32-word_bytes before (5 ∷ 18 ∷ word_bytes l []) (word_bytes k (word_bytes s rest)) r 6
              (offset + 6 + 4 * 2 * 0) hr refl (omega arith),
          read32-word_bytes before (5 ∷ 18 ∷ word_bytes l (word_bytes r [])) (word_bytes s rest) k
              10 (offset + 2 + 4 * 2 * 1) hk refl (omega arith),
          read32-word_bytes before (5 ∷ 18 ∷ word_bytes l (word_bytes r (word_bytes k []))) rest s
              14 (offset + 6 + 4 * 2 * 1) hs refl (omega arith),
        )
        (ap-bind (add_sack conn l r seg) _ (add_sack conn k s) (λ a. >>=-ok (add_sack conn k s a)))

  read_option_lem :
      (seg : DataSeg) (o : TcpOption)
      → IsOption o
      → read_option (before ++ encode o rest) conn type offset (kind_of o) (size_of o) seg
        ≡ apply_option conn type o seg
  unfolding read_option
  read_option_lem seg nop h = refl
  read_option_lem seg (timestamps v e) (hv, he) = timestamps_lem seg v e hv he
  read_option_lem seg (one_sack l r) (hl, hr) = elim (Bool-cases (is_none type)) [
    | inl e ↦ rw e refl
    | inr e ↦ rw e (one_sack_lem (record seg { sacks = true }) l r hl hr)
  ]
  read_option_lem seg (two_sacks l r k s) h = elim (Bool-cases (is_none type)) [
    | inl e ↦ rw e refl
    | inr e ↦ rw e (two_sacks_lem (record seg { sacks = true }) l r k s h)
  ]
  read_option_lem seg (other kind body) (h0, h1, h5, h8) =
      let off8 : (kind == 8) ≡ false = ground arith in
      let off5 : (kind == 5) ≡ false = ground arith in rw (off8, off5) refl

  -- A round on an option of two bytes and more.
  round_lem :
      (seg : DataSeg) (k n head : ℕ) (l : List ℕ)
      → read8 (before ++ (k ∷ n ∷ l)) 0 ≡ ok head
      → head ≢ 0
      → k ≢ 0
      → k ≢ 1
      → options_round (before ++ (k ∷ n ∷ l)) len conn type offset seg ≡ (
          read_option (before ++ (k ∷ n ∷ l)) conn type offset k n seg >>= λ s.
          ok (onward (add32 offset n) s))
  unfolding options_round
  round_lem seg k n head l first h0 k0 k1 =
      let open_head : (head == 0) ≡ false = ground arith in
      let inside : ltb offset len ≡ true = ground arith in
      let not_end : (k == 0) ≡ false = ground arith in
      let not_nop : (k == 1) ≡ false = ground arith in
      rw (first, open_head, inside, kind_at k (n ∷ l), not_end, not_nop, size_at k n l) refl

  option_done :
      (seg : DataSeg) (o : TcpOption)
      → IsOption o
      → offset + size_of o ≤ len
      → (read_option (before ++ encode o rest) conn type offset (kind_of o) (size_of o) seg >>= λ s.
          ok (onward (add32 offset (size_of o)) s))
        ≡ (apply_option conn type o seg >>= λ s. ok (onward (offset + size_of o) s))
  option_done seg o h fits =
      let step : add32 offset (size_of o) ≡ offset + size_of o = omega arith in
      rw (read_option_lem seg o h, step) refl

  -- A round on an option that is laid out well.
  pub option-round :
      (seg : DataSeg) (o : TcpOption) (head : ℕ)
      → IsOption o
      → read8 (before ++ encode o rest) 0 ≡ ok head
      → head ≢ 0
      → offset + size_of o ≤ len
      → options_round (before ++ encode o rest) len conn type offset seg
        ≡ (apply_option conn type o seg >>= λ s. ok (onward (offset + size_of o) s))
  unfolding options_round
  option-round seg nop head h first h0 fits =
      let open_head : (head == 0) ≡ false = ground arith in
      let inside : ltb offset len ≡ true = ground arith in
      let step : add32 offset 1 ≡ offset + 1 = omega arith in
      rw (first, open_head, inside, kind_at 1 rest, step) refl
  option-round seg (timestamps v e) head h first h0 fits =
      round_lem seg 8 10 head (word_bytes v (word_bytes e rest)) first h0 (omega arith)
        (omega arith)
      ∙ option_done seg (timestamps v e) h fits
  option-round seg (one_sack l r) head h first h0 fits =
      round_lem seg 5 10 head (word_bytes l (word_bytes r rest)) first h0 (omega arith)
        (omega arith)
      ∙ option_done seg (one_sack l r) h fits
  option-round seg (two_sacks l r k s) head h first h0 fits =
      round_lem seg 5 18 head (word_bytes l (word_bytes r (word_bytes k (word_bytes s rest)))) first
        h0 (omega arith) (omega arith)
      ∙ option_done seg (two_sacks l r k s) h fits
  option-round seg (other kind body) head h first h0 fits =
      round_lem seg kind (length body + 2) head (body ++ rest) first h0 h.0 h.1
      ∙ option_done seg (other kind body) h fits
