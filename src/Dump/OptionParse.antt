-- ===== src/Dump/OptionParse.antt =====
-- parseTCPOptions on options that are laid out well.
use analyse_tcp.Prelude.{
  ℕ, zero, suc, ◌+◌, ◌<◌, ◌≡◌, ◌≢◌, refl, ap, ◌∙◌, sym, true, false, ltb, ◌==◌, List, [], ◌∷◌, ◌++◌,
  length, length-append, append_assoc, replicate, arith, ok,
}
use analyse_tcp.Words.{u32_mod}
use analyse_tcp.Range.{DataSeg}
use analyse_tcp.Conn.{Connection, RelativeSeqType}
use analyse_tcp.Dump.Options.{read8, options_round, options_loop, parse_tcp_options}
use analyse_tcp.Dump.OptionList.{
  TcpOption, encode, kind_of, size_of, apply_option, encode_all, size_all, AreOptions, apply_all,
}
use analyse_tcp.Dump.OptionBytes.{
  get_elem?-behind, bytes_of, encode-bytes_of, bytes_of-length, size_of-positive, bind-onward,
  first-kind, kind-nonzero,
}
use analyse_tcp.Dump.OptionRounds.{option-round}

-- The options from `before` on, padded with bytes of 0 up to the length of the options.
options_loop_lem :
    (os : List TcpOption) (before rest : List ℕ) (pad fuel offset len head : ℕ) (conn : Connection)
    (type : RelativeSeqType) (seg : DataSeg)
    → AreOptions os
    → offset ≡ length before
    → len ≡ offset + (size_all os + pad)
    → len < u32_mod
    → size_all os < fuel
    → read8 (before ++ encode_all os (replicate pad 0 ++ rest)) 0 ≡ ok head
    → head ≢ 0
    → options_loop fuel (before ++ encode_all os (replicate pad 0 ++ rest)) len conn type offset seg
      ≡ apply_all conn type os seg
unfolding options_loop options_round
options_loop_lem [] before rest pad zero offset len head conn type seg hs at el word enough first
      h0 =
    ground arith
options_loop_lem [] before rest zero (suc fuel) offset len head conn type seg hs at el word enough
      first h0 =
    let open_head : (head == 0) ≡ false = ground arith in
    let over : ltb offset len ≡ false = ground arith in rw (first, open_head, over) refl
options_loop_lem [] before rest (suc pad) (suc fuel) offset len head conn type seg hs at el word
      enough first h0 =
    let open_head : (head == 0) ≡ false = ground arith in
    let inside : ltb offset len ≡ true = ground arith in
    rw
      (
        first,
        open_head,
        inside,
        get_elem?-behind before (0 ∷ (replicate pad 0 ++ rest)) 0 offset (omega arith),
      )
      refl
options_loop_lem (o ∷ os) before rest pad zero offset len head conn type seg hs at el word enough
      first h0 =
    ground arith
options_loop_lem (o ∷ os) before rest pad (suc fuel) offset len head conn type seg (h, hs) at el
      word enough first h0 =
    let rest' = encode_all os (replicate pad 0 ++ rest) in
    let same : before ++ encode o rest' ≡ (before ++ bytes_of o) ++ rest' =
      ap (λ l. before ++ l) (encode-bytes_of o rest')
      ∙ sym (append_assoc before (bytes_of o) rest') in
    let size : length (bytes_of o) ≡ size_of o = bytes_of-length o in
    let positive : 0 < size_of o = size_of-positive o in
    rw
      (option-round before rest' len offset conn type at (omega arith) word seg o head h first h0
        (omega arith))
      (bind-onward (apply_option conn type o seg) (offset + size_of o)
        (options_loop fuel (before ++ encode o rest') len conn type) (apply_all conn type os)
        (λ s. rw same (
          options_loop_lem os (before ++ bytes_of o) rest pad fuel (offset + size_of o) len head
            conn type s hs (omega (arith, length-append before (bytes_of o))) (omega arith) word
            (omega arith) (rw (sym same) first) h0)))

-- Options that are laid out well, at least one, as RFC 793, 7323 and 2018 say, with words of 32 bits, kinds
-- other than 0 and at most two SACK blocks in an option, padded with bytes of 0 up to the
-- length of the options, which is below 2^32: parseTCPOptions returns what they say one after the other, and reads
-- nothing behind them.
pub parse_tcp_options-apply_all :
    (o : TcpOption) (os : List TcpOption) (pad : ℕ) (rest : List ℕ) (conn : Connection)
    (type : RelativeSeqType) (seg : DataSeg)
    → AreOptions (o ∷ os)
    → size_all (o ∷ os) + pad < u32_mod
    → parse_tcp_options
        (encode_all (o ∷ os) (replicate pad 0 ++ rest))
        (size_all (o ∷ os) + pad)
        conn
        type
        seg
      ≡ apply_all conn type (o ∷ os) seg
unfolding parse_tcp_options
parse_tcp_options-apply_all o os pad rest conn type seg h word =
    options_loop_lem (o ∷ os) [] rest pad (suc (size_all (o ∷ os) + pad)) 0
      (size_all (o ∷ os) + pad) (kind_of o) conn type seg h refl (omega arith) word (omega arith)
      (first-kind o (encode_all os (replicate pad 0 ++ rest))) (kind-nonzero o h.0)
