-- ===== src/Dump/Sending.antt =====
-- processSent from the packets of a trace to the ranges: the sequence numbers are unwrapped, the options
-- are read, and the segments are registered and inserted.
use analyse_tcp.Prelude.{
  ℕ, ◌+◌, ◌*◌, ◌%◌, ◌≤◌, ◌<◌, ◌≡◌, ◌≢◌, ◌⊎◌, refl, ap, sym, ◌∙◌, subst, true, false, leb, ◌==◌,
  if◌then◌else◌, max, Option, none, some, List, [], ◌∷◌, ◌++◌, replicate, arith, Bool-cases, inl,
  inr, Result, ok, err, ◌>>=◌,
}
use analyse_tcp.Words.{u32_mod, add64, invalid_seq}
use analyse_tcp.Seq.{absolute_seq}
use analyse_tcp.Seq.Relative.{relative-absolute_seq}
use analyse_tcp.Range.{DataSeg, has_flag, th_syn}
use analyse_tcp.Manager.Stream.{IsSegment}
use analyse_tcp.Conn.{
  Connection, SendData, RelativeSeqType, relative_sequence_number, register_sent, register_range,
}
use analyse_tcp.Conn.InStep.{send, send-InStep, InStep, InStepUpTo}
use analyse_tcp.Conn.Numbers.{Numbered, send-Numbered}
use analyse_tcp.Dump.Options.{parse_tcp_options}
use analyse_tcp.Dump.OptionList.{
  TcpOption, encode_all, size_all, AreOptions, apply_option, apply_all,
}
use analyse_tcp.Dump.OptionParse.{parse_tcp_options-apply_all}
use analyse_tcp.Dump.Handlers.{Packet, payload_of, data_segment, option_length, sent_connection}

-- The segments that differ in their time stamps only, as far as the sender's stream goes.
record SameData (seg seg' : DataSeg) : Type 0 where
  same_seq : seg'.seq ≡ seg.seq
  same_end : seg'.end_seq ≡ seg.end_seq
  same_absolute : seg'.seq_absolute ≡ seg.seq_absolute
  same_size : seg'.payload_size ≡ seg.payload_size
  same_flags : seg'.flags ≡ seg.flags

no_change : (seg : DataSeg) → SameData seg seg
no_change seg = record {
  same_seq = refl;
  same_end = refl;
  same_absolute = refl;
  same_size = refl;
  same_flags = refl;
}

-- Options of a packet with data change the time stamps only.
apply_option-SameData :
    (conn : Connection) (o : TcpOption) (seg : DataSeg)
    → (s : DataSeg) × (apply_option conn RelativeSeqType.relseq_none o seg ≡ ok s) × SameData seg s
apply_option-SameData conn TcpOption.nop seg = (seg, refl, no_change seg)
apply_option-SameData conn (TcpOption.timestamps v e) seg = (
  record seg { tstamp_tcp = v; tstamp_tcp_echo = e },
  refl,
  record {
    same_seq = refl;
    same_end = refl;
    same_absolute = refl;
    same_size = refl;
    same_flags = refl;
  },
)
apply_option-SameData conn (TcpOption.one_sack l r) seg = (seg, refl, no_change seg)
apply_option-SameData conn (TcpOption.two_sacks l r k s) seg = (seg, refl, no_change seg)
apply_option-SameData conn (TcpOption.other kind body) seg = (seg, refl, no_change seg)

apply_all-SameData :
    (conn : Connection) (os : List TcpOption) (seg : DataSeg)
    → (s : DataSeg) × (apply_all conn RelativeSeqType.relseq_none os seg ≡ ok s) × SameData seg s
apply_all-SameData conn [] seg = (seg, refl, no_change seg)
apply_all-SameData conn (o ∷ os) seg =
    let (s, e, same) = apply_option-SameData conn o seg in
    let (s', e', same') = apply_all-SameData conn os s in
    (
      s',
      rw e e',
      record {
        same_seq = same'.same_seq ∙ same.same_seq;
        same_end = same'.same_end ∙ same.same_end;
        same_absolute = same'.same_absolute ∙ same.same_absolute;
        same_size = same'.same_size ∙ same.same_size;
        same_flags = same'.same_flags ∙ same.same_flags;
      },
    )

-- A packet that carries the bytes from the relative number `position` on, of a connection whose first sequence
-- number is `first` and whose stream goes from `b` to `last`: the bytes start no further than `last` and less than
-- 2^31 behind it, and their absolute number is not 2^32 - 1. It has at least one option, and they are laid out well.
pub record Carries (b link first last position : ℕ) (p : Packet) : Type 0 where
  pub wrapped : p.th_seq ≡ absolute_seq first position
  pub from_start : b ≤ position
  pub no_gap : position ≤ last
  pub recent : last ≤ position + 2147483648
  pub side : (position % u32_mod < 2147483648) ⊎ (last ≤ position)
  pub not_last_word : absolute_seq first position ≢ 4294967295
  pub has_data : 0 < payload_of link p
  pub short : payload_of link p ≤ 1501
  pub small : position + payload_of link p ≤ 9999999999
  pub no_syn : has_flag p.th_flags th_syn ≡ false
  pub option : TcpOption
  pub options : List TcpOption
  pub pad : ℕ
  pub rest : List ℕ
  pub laid_out : p.behind ≡ encode_all (option ∷ options) (replicate pad 0 ++ rest)
  pub sizes : option_length p ≡ size_all (option ∷ options) + pad
  pub at_most_40 : option_length p ≤ 40
  pub are_options : AreOptions (option ∷ options)

-- The packet's segment, and its relative sequence number.
module _ (b link position : ℕ) (p : Packet) (c : Connection) (n : Numbered c) (i : InStep b c)
    (a : Carries b link c.rm.first_seq c.rm.last_seq position p) where
  relative_number :
      relative_sequence_number p.th_seq RelativeSeqType.relseq_send_out c ≡ ok position
  unfolding relative_sequence_number
  relative_number =
      rw (a.wrapped, n.newest)
        (relative-absolute_seq c.rm.first_seq c.last_largest_end_seq position n.first_word
          n.in_range (omega (arith, a.small)) (omega (arith, a.no_gap, i.same_end))
          (omega (arith, a.recent, i.same_end))
          (subst (λ l. (position % u32_mod < 2147483648) ⊎ (l ≤ position)) (sym i.same_end) a.side)
          a.not_last_word)

  sent_options :
      (s : DataSeg) × (parse_tcp_options p.behind
          (option_length p)
          c
          RelativeSeqType.relseq_none
          (data_segment position 0 link p)
        ≡ ok s)
      × SameData (data_segment position 0 link p) s
  sent_options =
      let (s, e, same) =
        apply_all-SameData c (a.option ∷ a.options) (data_segment position 0 link p) in
      (
        s,
        rw (a.laid_out, a.sizes)
              (parse_tcp_options-apply_all a.option a.options a.pad a.rest c
                RelativeSeqType.relseq_none (data_segment position 0 link p) a.are_options
                (omega (arith, a.sizes, a.at_most_40)))
            ∙ e,
        same,
      )

  -- What processSent passes to registerSent.
  abbrev sent_data : DataSeg → SendData
  sent_data seg = record {
    total_size = p.len;
    ip_size = p.ip_len;
    ip_hdr_len = p.ip_hl * 4;
    tcp_hdr_len = p.th_off * 4;
    tcp_option_len = option_length p;
    segment = seg;
  }

  -- Whether registerSent returns true or not.
  registered :
      (sd : SendData)
      → (let r = register_sent sd c in
          if r.2 then (do c' ← register_range r.1 r.0; ok (some c')) else ok (some r.0))
        ≡ (send sd c >>= λ c'. ok (some c'))
  unfolding send
  registered sd = elim (Bool-cases (register_sent sd c).2) [ inl h ↦ rw h refl | inr h ↦ rw h refl ]

  sent_connection-send :
      sent_connection link p c ≡ (send (sent_data sent_options.0) c >>= λ c'. ok (some c'))
  unfolding sent_connection send
  sent_connection-send =
      let valid : (position == invalid_seq) ≡ false = ground (arith, a.small) in
      let few : leb (option_length p) 40 ≡ true = ground (arith, a.at_most_40) in
      rw (relative_number, few, valid, sent_options.1) (registered (sent_data sent_options.0))

-- The handler returns the connection, which is in step up to `last` and still has the first sequence number
-- `first`.
abbrev pub SentUpTo : ℕ → ℕ → ℕ → Result (Option Connection) → Type 0
SentUpTo b first last (ok (some c)) =
    InStep b c × Numbered c × (c.rm.first_seq ≡ first) × (c.rm.last_seq ≡ last)
SentUpTo b first last (ok none) = ⊥
SentUpTo b first last (err f) = ⊥

-- A packet that carries bytes of the stream, on an open connection whose ranges hold the stream and
-- whose numbers agree: processSent drops nothing and returns, the ranges hold exactly the bytes up to the
-- larger of the old end and the packet's, and the numbers of the connection agree again.
pub sent_connection-SentUpTo :
    (b link position : ℕ) (p : Packet) (c : Connection)
    → Numbered c
    → InStep b c
    → Carries b link c.rm.first_seq c.rm.last_seq position p
    → SentUpTo b c.rm.first_seq
        (max c.rm.last_seq (position + payload_of link p))
        (sent_connection link p c)
sent_connection-SentUpTo b link position p c n i a =
    let (seg, parsed, same) = sent_options b link position p c n i a in
    let sd = sent_data b link position p c n i a seg in
    let size : seg.payload_size ≡ payload_of link p = same.same_size in
    let at : seg.seq ≡ position = same.same_seq in
    let not_wrapped : add64 position (payload_of link p) ≡ position + payload_of link p =
      omega (arith, a.small) in
    let end : seg.end_seq ≡ position + payload_of link p = same.same_end ∙ not_wrapped in
    let no_syn = ap (λ f. has_flag f th_syn) same.same_flags ∙ a.no_syn in
    let s : IsSegment seg = record {
      has_data = omega (arith, size, a.has_data);
      short = omega (arith, size, a.short);
      no_syn = no_syn;
      spans = omega (arith, end, at, size);
      word = omega (arith, end, a.small);
    } in
    let up_to =
      subst (λ e. InStepUpTo b (max c.rm.last_seq e) (send sd c)) end
        (send-InStep b sd c i s (omega (arith, at, a.from_start)) (omega (arith, at, a.no_gap))) in
    let absolute : seg.seq_absolute ≡ absolute_seq c.rm.first_seq seg.seq =
      same.same_absolute ∙ a.wrapped ∙ ap (absolute_seq c.rm.first_seq) (sym at) in
    let numbers =
      send-Numbered sd c i.not_closed no_syn (omega (arith, size, a.has_data)) n absolute
        (omega (arith, end, at, size)) (omega (arith, end, a.small)) in
    rw (sent_connection-send b link position p c n i a) (returned (send sd c) up_to numbers)
  where
    returned :
        (r : Result Connection)
        → InStepUpTo b (max c.rm.last_seq (position + payload_of link p)) r
        → ((c' : Connection) → r ≡ ok c' → Numbered c' × (c'.rm.first_seq ≡ c.rm.first_seq))
        → SentUpTo b c.rm.first_seq
            (max c.rm.last_seq (position + payload_of link p))
            (r >>= λ c'. ok (some c'))
    returned (err f) u m = u
    returned (ok c') (i', e) m = (i', (m c' refl).0, (m c' refl).1, e)
