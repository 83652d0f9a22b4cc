-- ===== src/Conn/InStep.antt =====
-- Data that goes through a Connection: registerSent counts it and registerRange inserts it, and the two
-- agree on how far the stream reaches.
use analyse_tcp.Prelude.{
  ℕ, ◌≤◌, ◌<◌, ◌≡◌, refl, sym, ap, subst, ◌∙◌, false, ltb, ◌==◌, not, ◌&&◌, if◌then◌else◌, max,
  some, List, [], ◌∷◌, arith, Bool-cases, inl, inr, Result, ok, err, ◌>>=◌,
}
use analyse_tcp.Words.{add64}
use analyse_tcp.Range.{DataSeg, has_flag, th_syn}
use analyse_tcp.Manager.{RangeManager, insert_sent_range}
use analyse_tcp.Manager.Stream.{
  Holds, IsSegment, HoldsUpTo, insert_sent_range-Holds, Follows, stream_end,
}
use analyse_tcp.Conn.{
  Connection, SendData, check_expected, register_payload, register_sent, register_range,
}

-- The packet's segment is registered, and if that returns true, inserted.
unfoldable pub send : SendData → Connection → Result Connection
send sd c = let r = register_sent sd c in if r.2 then register_range r.1 r.0 else ok r.0

-- The ranges hold the stream from `b` on, the connection and the range manager agree on its end, and the
-- connection is not closed.
pub record InStep (b : ℕ) (c : Connection) : Type 0 where
  pub holds : Holds b c.rm
  pub same_end : c.last_largest_end_seq ≡ c.rm.last_seq
  pub not_closed : c.closed ≡ false

-- A segment that is no SYN, on an open connection, is registered as it is.
check_expected_lem :
    (seg : DataSeg) (c : Connection)
    → c.closed ≡ false
    → has_flag seg.flags th_syn ≡ false
    → check_expected seg c ≡ some (c, seg)
unfolding check_expected
check_expected_lem seg c not_closed no_syn =
    elim (Bool-cases
      (ltb c.last_largest_end_seq seg.end_seq && not (add64 c.last_largest_end_seq 1 == seg.seq))) [
        | inl h ↦ rw (h, not_closed, no_syn) refl
        | inr h ↦ rw h refl
      ]

-- What registerSent leaves alone.
pub register_payload_lem :
    (seg : DataSeg) (c : Connection)
    → (((register_payload seg c).0).rm ≡ c.rm)
      × (((register_payload seg c).0).closed ≡ c.closed)
      × (((register_payload seg c).0).last_largest_end_seq ≡ max c.last_largest_end_seq seg.end_seq)
      × (((register_payload seg c).1).seq ≡ seg.seq)
      × (((register_payload seg c).1).end_seq ≡ seg.end_seq)
      × (((register_payload seg c).1).payload_size ≡ seg.payload_size)
      × (((register_payload seg c).1).flags ≡ seg.flags)
unfolding register_payload
register_payload_lem seg c = elim (Bool-cases (ltb c.last_largest_end_seq seg.end_seq)) [
  | inl h ↦ rw h (refl, refl, ground arith, refl, refl, refl, refl)
  | inr h ↦ rw h (refl, refl, ground arith, refl, refl, refl, refl)
]

-- The call returns a connection that is in step up to `last`.
abbrev pub InStepUpTo : ℕ → ℕ → Result Connection → Type 0
InStepUpTo b last (ok c) = InStep b c × (c.rm.last_seq ≡ last)
InStepUpTo b last (err f) = ⊥

inserted-InStep :
    (b last : ℕ) (c : Connection) (r : Result RangeManager)
    → c.closed ≡ false
    → c.last_largest_end_seq ≡ last
    → HoldsUpTo b last r
    → InStepUpTo b last (r >>= λ rm. ok (record c { rm = rm }))
inserted-InStep b last c (err f) not_closed same h = h
inserted-InStep b last c (ok rm) not_closed same (h, e) =
    (record { holds = h; same_end = same ∙ sym e; not_closed = not_closed }, e)

abbrev pub count_packet : SendData → Connection → Connection
count_packet sd c = record c {
  tot_packet_size = add64 c.tot_packet_size sd.total_size;
  nr_packets_sent = add64 c.nr_packets_sent 1;
}

pub send_lem :
    (sd : SendData) (c : Connection)
    → c.closed ≡ false
    → has_flag sd.segment.flags th_syn ≡ false
    → 0 < sd.segment.payload_size
    → let p = register_payload sd.segment (count_packet sd c) in send sd c ≡ register_range p.1 p.0
unfolding send register_sent
send_lem sd c not_closed no_syn some_data =
    let has_data : (sd.segment.payload_size == 0) ≡ false = ground arith in
    let accepted = check_expected_lem sd.segment (count_packet sd c) not_closed no_syn in
    rw (send, register_sent, accepted, has_data) refl

-- A segment of data with no gap before it, of at most 1501 bytes and no SYN, on an open connection whose
-- ranges hold the stream: registerSent accepts it and registerRange returns, and the connection and
-- its ranges agree on the new end of the stream, the larger of the old end and that of the segment.
pub send-InStep :
    (b : ℕ) (sd : SendData) (c : Connection)
    → InStep b c
    → IsSegment sd.segment
    → b ≤ sd.segment.seq
    → sd.segment.seq ≤ c.rm.last_seq
    → InStepUpTo b (max c.rm.last_seq sd.segment.end_seq) (send sd c)
unfolding register_range
send-InStep b sd c i s lo le =
    let seg = sd.segment in
    let p = register_payload seg (count_packet sd c) in
    let (rm, closed, end, seq', end', size', flags') =
      register_payload_lem seg (count_packet sd c) in
    let s' : IsSegment p.1 = record {
      has_data = omega (arith, s.has_data);
      short = omega (arith, s.short);
      no_syn = rw flags' s.no_syn;
      spans = omega (arith, s.spans);
      word = omega (arith, s.word);
    } in
    let h : Holds b p.0.rm = rw rm i.holds in
    let last : p.0.rm.last_seq ≡ c.rm.last_seq = ap (λ (r : RangeManager). r.last_seq) rm in
    let inserted =
      insert_sent_range-Holds b p.1 p.0.rm h s' (omega arith) (omega (arith, last, seq')) in
    let new_end : max p.0.rm.last_seq p.1.end_seq ≡ max c.rm.last_seq seg.end_seq =
      omega (arith, last, end') in
    rw (send_lem sd c i.not_closed s.no_syn s.has_data) (
      inserted-InStep b (max c.rm.last_seq seg.end_seq) p.0 (insert_sent_range p.1 p.0.rm)
        (closed ∙ i.not_closed) (omega (arith, end, i.same_end))
        (subst (λ n. HoldsUpTo b n (insert_sent_range p.1 p.0.rm)) new_end inserted))

-- The segments go through the connection one after the other.
unfoldable pub send_all : List SendData → Connection → Result Connection
send_all [] c = ok c
send_all (sd ∷ sds) c = send sd c >>= send_all sds

abbrev pub segments : List SendData → List DataSeg
segments [] = []
segments (sd ∷ sds) = sd.segment ∷ segments sds

-- A whole stream of segments without gaps, each of at most 1501 bytes and none a SYN, on an open connection,
-- with any retransmissions and bundles among them: every call returns, and at the end the ranges hold exactly
-- the bytes up to the largest end of a segment, which is what the connection has for the end
-- of the stream too.
pub send_all-InStep :
    (b : ℕ) (sds : List SendData) (c : Connection)
    → InStep b c
    → Follows b c.rm.last_seq (segments sds)
    → InStepUpTo b (stream_end c.rm.last_seq (segments sds)) (send_all sds c)
unfolding send_all
send_all-InStep b [] c i f = (i, refl)
send_all-InStep b (sd ∷ sds) c i (s, lo, le, rest) =
    then_all (send sd c) (send-InStep b sd c i s lo le)
      (λ c' i' e. send_all-InStep b sds c' i' (rw e rest))
  where
    then_all :
        (r : Result Connection)
        → InStepUpTo b (max c.rm.last_seq sd.segment.end_seq) r
        → ((c' : Connection)
            → InStep b c'
            → c'.rm.last_seq ≡ max c.rm.last_seq sd.segment.end_seq
            → InStepUpTo b (stream_end c'.rm.last_seq (segments sds)) (send_all sds c'))
        → InStepUpTo b
            (stream_end (max c.rm.last_seq sd.segment.end_seq) (segments sds))
            (r >>= send_all sds)
    then_all (err f) u next = u
    then_all (ok c') (i', e) next = rw (sym e) (next c' i' e)
