-- ===== src/Dump/OptionMeaning.antt =====
-- What the options of a segment mean, apart from the code that reads them, and parseTCPOptions.
use analyse_tcp.Prelude.{
  ℕ, ◌+◌, ◌%◌, ◌<◌, ◌≡◌, refl, ap, ◌∙◌, if◌then◌else◌, true, false, Bool, List, [], ◌∷◌, ◌++◌,
  replicate, Result, ok, err, ◌>>=◌, arith,
}
use analyse_tcp.Words.{u32_mod}
use analyse_tcp.Range.{DataSeg}
use analyse_tcp.Conn.{Connection, RelativeSeqType, relative_sequence_number}
use analyse_tcp.Dump.Options.{add_sack, is_none, parse_tcp_options}
use analyse_tcp.Dump.OptionList.{
  TcpOption, encode_all, size_all, AreOptions, apply_option, apply_all,
}
use analyse_tcp.Dump.OptionParse.{parse_tcp_options-apply_all}

-- The position in the stream of a number that is acknowledged.
abbrev pub position : Connection → ℕ → Result ℕ
position conn n = relative_sequence_number n RelativeSeqType.relseq_send_ack conn

-- A SACK block acknowledges the bytes from one position to another.
abbrev pub acknowledge : Connection → ℕ → ℕ → DataSeg → Result DataSeg
acknowledge conn l r seg = position conn l >>= λ from.
    position conn r >>= λ to. ok (record seg { tcp_sacks = seg.tcp_sacks ++ (from, to) ∷ [] })

-- SACK blocks are of interest in acks only, not in packets with data.
abbrev pub reads_sacks : RelativeSeqType → Bool
reads_sacks RelativeSeqType.relseq_none = false
reads_sacks _ = true

-- The meaning of an option.
abbrev pub meaning : Connection → RelativeSeqType → TcpOption → DataSeg → Result DataSeg
meaning conn type TcpOption.nop seg = ok seg
meaning conn type (TcpOption.timestamps v e) seg =
    ok (record seg { tstamp_tcp = v; tstamp_tcp_echo = e })
meaning conn type (TcpOption.one_sack l r) seg =
    if reads_sacks type then acknowledge conn l r (record seg { sacks = true }) else ok seg
meaning conn type (TcpOption.two_sacks l r k s) seg =
    if reads_sacks type
    then (acknowledge conn l r (record seg { sacks = true }) >>= acknowledge conn k s)
    else ok seg
meaning conn type (TcpOption.other kind body) seg = ok seg

abbrev pub meaning_all : Connection → RelativeSeqType → List TcpOption → DataSeg → Result DataSeg
meaning_all conn type [] seg = ok seg
meaning_all conn type (o ∷ os) seg = meaning conn type o seg >>= meaning_all conn type os

-- The position is below 2^32, if the number has one.
abbrev pub IsNear : Connection → ℕ → Type 0
IsNear conn n = (r : ℕ) → position conn n ≡ ok r → r < u32_mod

-- The right edges of the SACK blocks are.
abbrev pub EdgesNear : Connection → TcpOption → Type 0
EdgesNear conn (TcpOption.one_sack l r) = IsNear conn r
EdgesNear conn (TcpOption.two_sacks l r k s) = IsNear conn r × IsNear conn s
EdgesNear conn o = Unit {0}

abbrev pub AllNear : Connection → List TcpOption → Type 0
AllNear conn [] = Unit {0}
AllNear conn (o ∷ os) = EdgesNear conn o × AllNear conn os

add_sack-acknowledge :
    (conn : Connection) (l r : ℕ) (seg : DataSeg)
    → IsNear conn r
    → add_sack conn l r seg ≡ acknowledge conn l r seg
unfolding add_sack
add_sack-acknowledge conn l r seg near = edges (position conn l) (position conn r) refl
  where
    edges :
        (a b : Result ℕ)
        → position conn r ≡ b
        → (a >>= λ left. b >>= λ right.
            ok (record seg { tcp_sacks = seg.tcp_sacks ++ (left, right % u32_mod) ∷ [] }))
          ≡ (a >>= λ left.
              b >>= λ right. ok (record seg { tcp_sacks = seg.tcp_sacks ++ (left, right) ∷ [] }))
    edges (err f) b e = refl
    edges (ok left) (err f) e = refl
    edges (ok left) (ok right) e =
        let small : right % u32_mod ≡ right = omega (arith, near right e) in rw small refl

bind_same :
    (r : Result DataSeg) (f g : DataSeg → Result DataSeg)
    → ((s : DataSeg) → f s ≡ g s)
    → (r >>= f) ≡ (r >>= g)
bind_same (err e) f g h = refl
bind_same (ok s) f g h = h s

reads_sacks_lem :
    (type : RelativeSeqType) (a b : Result DataSeg)
    → (if is_none type then a else b) ≡ (if reads_sacks type then b else a)
reads_sacks_lem RelativeSeqType.relseq_none a b = refl
reads_sacks_lem RelativeSeqType.relseq_send_out a b = refl
reads_sacks_lem RelativeSeqType.relseq_send_ack a b = refl
reads_sacks_lem RelativeSeqType.relseq_recv_inn a b = refl
reads_sacks_lem RelativeSeqType.relseq_soj_seq a b = refl

apply_option-meaning :
    (conn : Connection) (type : RelativeSeqType) (o : TcpOption) (seg : DataSeg)
    → EdgesNear conn o
    → apply_option conn type o seg ≡ meaning conn type o seg
apply_option-meaning conn type TcpOption.nop seg near = refl
apply_option-meaning conn type (TcpOption.timestamps v e) seg near = refl
apply_option-meaning conn type (TcpOption.one_sack l r) seg near =
    let marked : DataSeg = record seg { sacks = true } in
    ap (λ a. if is_none type then ok seg else a) (add_sack-acknowledge conn l r marked near)
    ∙ reads_sacks_lem type (ok seg) (acknowledge conn l r marked)
apply_option-meaning conn type (TcpOption.two_sacks l r k s) seg (near, near') =
    let marked : DataSeg = record seg { sacks = true } in
    let first = add_sack-acknowledge conn l r marked near in
    let both =
      ap (λ a. a >>= add_sack conn k s) first
      ∙ bind_same (acknowledge conn l r marked) (add_sack conn k s) (acknowledge conn k s)
          (λ s'. add_sack-acknowledge conn k s s' near') in
    ap (λ a. if is_none type then ok seg else a) both
    ∙ reads_sacks_lem type (ok seg) (acknowledge conn l r marked >>= acknowledge conn k s)
apply_option-meaning conn type (TcpOption.other kind body) seg near = refl

apply_all-meaning_all :
    (conn : Connection) (type : RelativeSeqType) (os : List TcpOption) (seg : DataSeg)
    → AllNear conn os
    → apply_all conn type os seg ≡ meaning_all conn type os seg
apply_all-meaning_all conn type [] seg near = refl
apply_all-meaning_all conn type (o ∷ os) seg (near, rest) =
    ap (λ a. a >>= apply_all conn type os) (apply_option-meaning conn type o seg near)
    ∙ bind_same (meaning conn type o seg) (apply_all conn type os) (meaning_all conn type os)
        (λ s. apply_all-meaning_all conn type os s rest)

-- Options that are laid out well, at least one, as RFC 793, 7323 and 2018 say, with words of 32 bits, kinds
-- other than 0 and at most two SACK blocks in an option, padded with bytes of 0 up to the length of the
-- options, which is below 2^32, where the right edges of SACK blocks are at positions below 2^32:
-- parseTCPOptions returns what the options mean one after the other, and reads nothing behind them.
pub parse_tcp_options-meaning_all :
    (o : TcpOption) (os : List TcpOption) (pad : ℕ) (rest : List ℕ) (conn : Connection)
    (type : RelativeSeqType) (seg : DataSeg)
    → AreOptions (o ∷ os)
    → AllNear conn (o ∷ os)
    → size_all (o ∷ os) + pad < u32_mod
    → parse_tcp_options
        (encode_all (o ∷ os) (replicate pad 0 ++ rest))
        (size_all (o ∷ os) + pad)
        conn
        type
        seg
      ≡ meaning_all conn type (o ∷ os) seg
parse_tcp_options-meaning_all o os pad rest conn type seg h near word =
    parse_tcp_options-apply_all o os pad rest conn type seg h word
    ∙ apply_all-meaning_all conn type (o ∷ os) seg near
