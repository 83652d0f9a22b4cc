-- ===== src/Dump/OptionFaults.antt =====
-- Options that parseTCPOptions does not read as they are meant: a size of 0, and three SACK blocks.
use analyse_tcp.Prelude.{
  ℕ, zero, suc, ◌≡◌, ◌≢◌, ◌<◌, refl, ◌∙◌, true, false, ltb, ◌==◌, List, ◌∷◌, arith, Result, ok, err,
  Fault, ◌>>=◌,
}
use analyse_tcp.Words.{u32_mod}
use analyse_tcp.Range.{DataSeg}
use analyse_tcp.Conn.{Connection, RelativeSeqType}
use analyse_tcp.Dump.Options.{
  read32, add_sack, read_sacks, read_option, options_round, options_loop, parse_tcp_options,
}
use analyse_tcp.Dump.OptionList.{word_bytes}
use analyse_tcp.Dump.OptionBytes.{word-bytes, ap-bind, >>=-ok, bind-onward}

-- An option of a kind that is not known, first among the options, whose size is 0: the loop of
-- parseTCPOptions does not end, whatever fuel it is given.
pub options_loop_stuck :
    (fuel kind len : ℕ) (rest : List ℕ) (conn : Connection) (type : RelativeSeqType) (seg : DataSeg)
    → 0 < len
    → (kind ≢ 0) × (kind ≢ 1) × (kind ≢ 5) × (kind ≢ 8)
    → options_loop fuel (kind ∷ 0 ∷ rest) len conn type 0 seg ≡ err Fault.out_of_fuel
unfolding options_loop options_round read_option
options_loop_stuck zero kind len rest conn type seg some_options (h0, h1, h5, h8) = refl
options_loop_stuck (suc fuel) kind len rest conn type seg some_options (h0, h1, h5, h8) =
    let is0 : (kind == 0) ≡ false = ground arith in
    let is1 : (kind == 1) ≡ false = ground arith in
    let is5 : (kind == 5) ≡ false = ground arith in
    let is8 : (kind == 8) ≡ false = ground arith in
    let inside : ltb 0 len ≡ true = ground arith in
    rw (is0, inside, is1, is8, is5)
      (options_loop_stuck fuel kind len rest conn type seg some_options (h0, h1, h5, h8))

-- An option with three SACK blocks, alone: the second block that is registered runs from the right edge
-- of the second block to the left edge of the third, and the third is read from the eight bytes
-- behind the options.
pub three_sacks_mixed :
    (l r k s u v : ℕ) (rest : List ℕ) (conn : Connection) (seg : DataSeg)
    → (l < u32_mod) × (r < u32_mod) × (s < u32_mod) × (u < u32_mod)
    → parse_tcp_options
        (5
          ∷ 26
          ∷ word_bytes l
              (word_bytes r (word_bytes k (word_bytes s (word_bytes u (word_bytes v rest))))))
        26
        conn
        RelativeSeqType.relseq_send_ack
        seg
      ≡ (do
        one ← add_sack conn l r (record seg { sacks = true })
        two ← add_sack conn s u one
        left ← read32 rest 0
        right ← read32 rest 4
        add_sack conn left right two)
unfolding parse_tcp_options options_loop options_round read_option read_sacks read32
three_sacks_mixed l r k s u v rest conn seg (hl, hr, hs, hu) =
    let bytes =
      5
      ∷ 26
      ∷ word_bytes l
          (word_bytes r (word_bytes k (word_bytes s (word_bytes u (word_bytes v rest))))) in
    let whole : Result DataSeg = (do
      one ← add_sack conn l r (record seg { sacks = true })
      two ← add_sack conn s u one
      left ← read32 rest 0
      right ← read32 rest 4
      three ← add_sack conn left right two
      ok three) in
    rw (word-bytes l hl, word-bytes r hr, word-bytes s hs, word-bytes u hu)
      (bind-onward whole 26 (options_loop 26 bytes 26 conn RelativeSeqType.relseq_send_ack) ok
          (λ a. refl)
        ∙ >>=-ok whole
        ∙ ap-bind (add_sack conn l r (record seg { sacks = true })) _ _ (λ a.
          ap-bind (add_sack conn s u a) _ _ (λ b.
            ap-bind (read32 rest 0) _ _ (λ left.
              ap-bind (read32 rest 4) _ _ (λ right. >>=-ok (add_sack conn left right b))))))
