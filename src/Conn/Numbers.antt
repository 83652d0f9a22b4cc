-- ===== src/Conn/Numbers.antt =====
-- The numbers of a Connection that getRelativeSequenceNumber reads: the first sequence number of its
-- ranges, and the relative and the absolute number of the newest byte sent.
use analyse_tcp.Prelude.{
  ℕ, ◌+◌, ◌≤◌, ◌<◌, Bool, ◌≡◌, refl, ap, sym, subst, ◌∙◌, true, false, ltb, ◌&&◌, ◌==◌,
  if◌then◌else◌, max, arith, Bool-cases, inl, inr, Result, ok, err, ◌>>=◌,
}
use analyse_tcp.Words.{u32_mod, add32}
use analyse_tcp.Seq.{absolute_seq}
use analyse_tcp.Seq.Relative.{absolute_seq-mod}
use analyse_tcp.Range.{DataSeg, has_flag, th_syn}
use analyse_tcp.RangeMap.{RangeMap}
use analyse_tcp.Insert.{insert_byte_range, InsertType}
use analyse_tcp.Manager.{
  RangeManager, segment_fuel, advance_last_seq, insert_segment, insert_sent_range,
}
use analyse_tcp.Conn.{Connection, SendData, register_payload, register_range}
use analyse_tcp.Conn.InStep.{send, send_lem, register_payload_lem, count_packet}

-- The newest absolute number belongs to the newest relative one.
pub record Numbered (c : Connection) : Type 0 where
  pub first_word : c.rm.first_seq < u32_mod
  pub newest : c.last_largest_seq_absolute ≡ absolute_seq c.rm.first_seq c.last_largest_end_seq
  pub in_range : c.last_largest_end_seq ≤ 9999999999

abbrev KeepsFirst : ℕ → Result RangeManager → Type 0
KeepsFirst first (ok rm) = rm.first_seq ≡ first
KeepsFirst first (err f) = Unit {0}

advance_last_seq-first_seq :
    (seg : DataSeg) (rm : RangeManager) → (advance_last_seq seg rm).first_seq ≡ rm.first_seq
unfolding advance_last_seq
advance_last_seq-first_seq seg rm = ground arith

insert_sent_range-first_seq :
    (seg : DataSeg) (rm : RangeManager) → KeepsFirst rm.first_seq (insert_sent_range seg rm)
unfolding insert_sent_range insert_segment
insert_sent_range-first_seq seg rm = inserted (
    insert_byte_range (segment_fuel seg.seq seg.end_seq) InsertType.insert_sent seg rm.first_seq
      rm.last_seq 0 seg.seq seg.end_seq rm.ranges)
  where
    inserted :
        (r : Result (RangeMap × Bool))
        → KeepsFirst rm.first_seq (
            (r >>= λ p. ok (record rm {
              ranges = p.0;
              analysed_sent_pure_ack_count =
                  if seg.seq == seg.end_seq && true
                  then rm.analysed_sent_pure_ack_count + 1
                  else rm.analysed_sent_pure_ack_count;
            }))
            >>= λ rm'. ok (advance_last_seq seg rm'))
    inserted (err f) = tt
    inserted (ok p) = advance_last_seq-first_seq seg _

-- The call returns a connection with these numbers.
abbrev pub HasNumbers : ℕ → ℕ → ℕ → Result Connection → Type 0
HasNumbers first end absolute (ok c) =
    (c.rm.first_seq ≡ first)
    × (c.last_largest_end_seq ≡ end)
    × (c.last_largest_seq_absolute ≡ absolute)
HasNumbers first end absolute (err f) = Unit {0}

register_range-HasNumbers :
    (seg : DataSeg) (c : Connection)
    → HasNumbers c.rm.first_seq c.last_largest_end_seq c.last_largest_seq_absolute
        (register_range seg c)
unfolding register_range
register_range-HasNumbers seg c =
    ranged (insert_sent_range seg c.rm) (insert_sent_range-first_seq seg c.rm)
  where
    ranged :
        (r : Result RangeManager)
        → KeepsFirst c.rm.first_seq r
        → HasNumbers c.rm.first_seq c.last_largest_end_seq c.last_largest_seq_absolute
            (r >>= λ rm. ok (record c { rm = rm }))
    ranged (err f) k = tt
    ranged (ok rm) k = (k, refl, refl)

-- The absolute number of the end of a segment.
absolute_end :
    (first r size : ℕ)
    → first < u32_mod
    → r + size ≤ 9999999999
    → add32 (absolute_seq first r) size ≡ absolute_seq first (r + size)
absolute_end first r size hf hr =
    let at = absolute_seq-mod first r hf (omega arith) in
    let behind = absolute_seq-mod first (r + size) hf hr in omega arith

-- The absolute number that registerSent leaves, of a segment with the absolute number of its relative one.
register_payload_absolute :
    (seg : DataSeg) (c : Connection)
    → Numbered c
    → seg.seq_absolute ≡ absolute_seq c.rm.first_seq seg.seq
    → seg.end_seq ≡ seg.seq + seg.payload_size
    → seg.end_seq ≤ 9999999999
    → ((register_payload seg c).0).last_largest_seq_absolute
      ≡ absolute_seq c.rm.first_seq (max c.last_largest_end_seq seg.end_seq)
unfolding register_payload
register_payload_absolute seg c n at spans small =
    elim (Bool-cases (ltb c.last_largest_end_seq seg.end_seq)) [
      | inl h ↦
          let end : seg.end_seq ≡ max c.last_largest_end_seq seg.end_seq = ground arith in
          rw h (
            ap (λ a. add32 a seg.payload_size) at
            ∙ absolute_end c.rm.first_seq seg.seq seg.payload_size n.first_word (omega arith)
            ∙ ap (absolute_seq c.rm.first_seq) (sym spans ∙ end))
      | inr h ↦
          let end : c.last_largest_end_seq ≡ max c.last_largest_end_seq seg.end_seq =
            ground arith in
          rw h (n.newest ∙ ap (absolute_seq c.rm.first_seq) end)
    ]

-- A segment of data, no SYN, on an open connection, whose absolute number is that of its relative one:
-- what registerSent and registerRange return has its numbers in step again.
pub send-Numbered :
    (sd : SendData) (c : Connection)
    → c.closed ≡ false
    → has_flag sd.segment.flags th_syn ≡ false
    → 0 < sd.segment.payload_size
    → Numbered c
    → sd.segment.seq_absolute ≡ absolute_seq c.rm.first_seq sd.segment.seq
    → sd.segment.end_seq ≡ sd.segment.seq + sd.segment.payload_size
    → sd.segment.end_seq ≤ 9999999999
    → (c' : Connection) → send sd c ≡ ok c'
    → Numbered c' × (c'.rm.first_seq ≡ c.rm.first_seq)
send-Numbered sd c not_closed no_syn some_data n at spans small c' sent =
    let seg = sd.segment in
    let c0 = count_packet sd c in
    let p = register_payload seg c0 in
    let (rm, closed, end, seq', end', size', flags') = register_payload_lem seg c0 in
    let counted : Numbered c0 = record {
      first_word = n.first_word;
      newest = n.newest;
      in_range = n.in_range;
    } in
    let (first, last, absolute) =
      subst (HasNumbers p.0.rm.first_seq p.0.last_largest_end_seq p.0.last_largest_seq_absolute)
        (sym (send_lem sd c not_closed no_syn some_data) ∙ sent)
        (register_range-HasNumbers p.1 p.0) in
    let same_first = first ∙ ap (λ (r : RangeManager). r.first_seq) rm in
    let same_last = last ∙ end in
    let newest = absolute ∙ register_payload_absolute seg c0 counted at spans small in
    (
      record {
        first_word = omega (arith, n.first_word, same_first);
        newest =
            newest
            ∙ sym (ap (λ f. absolute_seq f (max c.last_largest_end_seq seg.end_seq)) same_first)
            ∙ sym (ap (absolute_seq c'.rm.first_seq) same_last);
        in_range = omega (arith, n.in_range, same_last);
      },
      same_first,
    )
