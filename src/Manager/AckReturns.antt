-- ===== src/Manager/AckReturns.antt =====
-- `processAck` returns: its iterators stay inside the map, if each range lists a packet and the first one
-- ends the search for a FIN.
use analyse_tcp.Prelude.{
  ℕ, ◌+◌, ◌<◌, ◌≡◌, refl, ◌≢◌, ◌⊎◌, Bool, true, false, not, ltb, ◌==◌, ◌&&◌, ◌||◌, none, some, List,
  [], ◌∷◌, arith, Bool-cases, inl, inr,
}
use analyse_tcp.Words.{sub64}
use analyse_tcp.Time.{timer_lt}
use analyse_tcp.Range.{ByteRange, DataSeg, insert_ack_time}
use analyse_tcp.Range.Split.{split_end_lem}
use analyse_tcp.RangeMap.{find}
use analyse_tcp.RangeMap.Order.{Disjoint, find-Disjoint}
use analyse_tcp.Insert.Returns.{Returns}
use analyse_tcp.Manager.{RangeManager}
use analyse_tcp.Manager.Ack.{
  old_ack, fin_ack, earlier_ack, split_ack, pass_ack, ack_loop, ack_ranges, unacked_keys,
  process_ack, keys_before,
}
use analyse_tcp.Manager.Acked.{pass_ack-Refines}
use analyse_tcp.Manager.Known.{
  AllSent, StartsWell, Known, Stops, Stops-Known, before-Stops, Known-set, AllSent-find,
  AllSent-set, StartsWell-set, keys-NonEmpty, keys-Known,
}

old_ack-Returns :
    (ack : ℕ) (ps : List ℕ) (rm : RangeManager) → Known rm.ranges ps → Returns (old_ack ack ps rm)
unfolding old_ack Known
old_ack-Returns ack [] rm h = tt
old_ack-Returns ack (p ∷ ps) rm ((br, f), h) = rw f (elim (Bool-cases (ack == br.end_seq)) [
  | inl e ↦ rw e tt
  | inr e ↦ rw e (elim (Bool-cases (ltb br.end_seq ack)) [
    | inl l ↦ rw l tt
    | inr l ↦ rw l (old_ack-Returns ack ps rm h)
  ])
])

fin_ack-Returns :
    (ack : ℕ) (ps : List ℕ) (rm : RangeManager) → Stops rm.ranges ps → Returns (fin_ack ack ps rm)
unfolding fin_ack Stops
fin_ack-Returns ack [] rm h = h
fin_ack-Returns ack (p ∷ []) rm (br, f, e) = rw f (elim (Bool-cases (br.fin == 0)) [
  | inr z ↦ rw z tt
  | inl z ↦
      let same : (br.packet_sent_count == br.data_sent_count) ≡ true = ground (arith, e) in
      rw (z, same) (old_ack-Returns ack (p ∷ []) rm (Stops-Known rm.ranges (p ∷ []) (br, f, e)))
])
fin_ack-Returns ack (p ∷ q ∷ ps) rm ((br, f), h) = rw f (elim (Bool-cases (br.fin == 0)) [
  | inr z ↦ rw z tt
  | inl z ↦ rw z (elim (Bool-cases (br.packet_sent_count == br.data_sent_count)) [
    | inl c ↦
        rw c (old_ack-Returns ack (p ∷ q ∷ ps) rm (Stops-Known rm.ranges (p ∷ q ∷ ps) ((br, f), h)))
    | inr c ↦ rw c (fin_ack-Returns ack (q ∷ ps) rm h)
  ])
])

earlier_ack-Returns :
    (ack : ℕ) (ps : List ℕ) (rm : RangeManager)
    → (ps ≡ []) ⊎ Stops rm.ranges ps
    → Returns (earlier_ack ack ps rm)
unfolding earlier_ack Known
earlier_ack-Returns ack [] rm h = tt
earlier_ack-Returns ack (p ∷ ps) rm (inl e) = cc
earlier_ack-Returns ack (p ∷ ps) rm (inr s) =
    let known = Stops-Known rm.ranges (p ∷ ps) s in
    let (br, f) = known.0 in
    rw f (elim (Bool-cases (sub64 ack 1 == br.end_seq)) [
      | inl e ↦ rw e (fin_ack-Returns ack (p ∷ ps) rm s)
      | inr e ↦ rw e (old_ack-Returns ack (p ∷ ps) rm known)
    ])

-- The times of the packets and the first range, as an ack leaves them on the ranges that it passes.
pass_ack-kept :
    (seg : DataSeg) (k : ℕ) (br : ByteRange) (ks : List ℕ) (rm : RangeManager)
    → find k rm.ranges ≡ some br
    → AllSent rm.ranges
    → StartsWell rm.ranges
    → Known rm.ranges ks
    → AllSent ((pass_ack seg k br rm).ranges)
      × StartsWell ((pass_ack seg k br rm).ranges)
      × Known ((pass_ack seg k br rm).ranges) ks
unfolding insert_ack_time
pass_ack-kept seg k br ks rm found sent starts known = elim (Bool-cases br.acked) [
  | inl h ↦ rw h (sent, starts, known)
  | inr h ↦
      let v = insert_ack_time seg.tstamp_pcap br in
      rw h (
        AllSent-set k br v rm.ranges sent found refl,
        StartsWell-set k br v rm.ranges starts found (refl, refl, refl),
        Known-set k v rm.ranges ks known,
      )
]

split_ack-Returns :
    (seg : DataSeg) (k : ℕ) (br : ByteRange) (rm : RangeManager)
    → Disjoint 0 rm.ranges
    → find k rm.ranges ≡ some br
    → br.start_seq < seg.ack
    → seg.ack < br.end_seq
    → Returns (split_ack seg k br rm)
unfolding split_ack
split_ack-Returns seg k br rm d found lo hi =
    let (_, s, r) = find-Disjoint k 0 rm.ranges br d found in
    rw (split_end_lem seg.ack br r (omega arith) (omega arith)) tt

ack_loop-Returns :
    (seg : DataSeg) (ks : List ℕ) (ret : Bool) (rm : RangeManager)
    → Disjoint 0 rm.ranges
    → AllSent rm.ranges
    → StartsWell rm.ranges
    → Known rm.ranges ks
    → Returns (ack_loop seg ks ret rm)
unfolding ack_loop Known
ack_loop-Returns seg [] ret rm d sent starts known = tt
ack_loop-Returns seg (k ∷ ks) ret rm d sent starts ((br, f), known) =
    rw f
      (elim (Bool-cases
        (seg.ack == br.end_seq || (br.byte_count == 0 && sub64 seg.ack 1 == br.end_seq))) [
          | inl h ↦ rw h tt
          | inr h ↦ rw h (elim (Bool-cases (ltb br.end_seq seg.ack)) [
            | inl l ↦
                let (t, g) = AllSent-find k br rm.ranges sent f in
                rw (l, g)
                  (elim (Bool-cases (timer_lt seg.tstamp_pcap t.0)) [
                    | inl b ↦ rw b tt
                    | inr b ↦
                        let (sent', starts', known') =
                          pass_ack-kept seg k br ks rm f sent starts known in
                        rw b (
                          ack_loop-Returns seg ks (ret || not br.acked) (pass_ack seg k br rm)
                            ((pass_ack-Refines seg k br rm d f).0) sent' starts' known')
                  ])
            | inr l ↦ rw l (elim (Bool-cases (ltb br.start_seq seg.ack && ltb seg.ack br.end_seq)) [
              | inl s ↦ rw s (split_ack-Returns seg k br rm d f (ground arith) (ground arith))
              | inr s ↦ rw s (
                  earlier_ack-Returns seg.ack (keys_before k rm.ranges []) rm
                    (before-Stops k rm.ranges d starts))
            ])
          ])
        ])

-- The highest acked range is in the map; before there is one, the map is not empty.
abbrev pub Tracked : RangeManager → Type 0
Tracked rm = elim rm.highest_acked as (λ _. Type 0) [
  | none ↦ rm.ranges ≢ []
  | some k ↦ (br : ByteRange) × (find k rm.ranges ≡ some br)
]

ack_ranges-Returns :
    (seg : DataSeg) (ks : List ℕ) (rm : RangeManager)
    → ks ≢ []
    → Disjoint 0 rm.ranges
    → AllSent rm.ranges
    → StartsWell rm.ranges
    → Known rm.ranges ks
    → Returns (ack_ranges seg ks rm)
unfolding ack_ranges Known
ack_ranges-Returns seg [] rm n d sent starts known = elim (n refl) [ ]
ack_ranges-Returns seg (k ∷ ks) rm n d sent starts ((br, f), known) =
    rw f (elim (Bool-cases (ltb seg.ack br.start_seq)) [
      | inl h ↦ rw h tt
      | inr h ↦ rw h (ack_loop-Returns seg (k ∷ ks) false rm d sent starts ((br, f), known))
    ])

-- An ack on an ordered map returns, with none of its iterators outside the map, if every range lists a
-- packet that was sent, if the first range ends the search for a FIN (it has one, or its counts of
-- packets and of data sent agree), and if the highest acked range is in the map or, before there is one,
-- the map has a range.
pub process_ack-Returns :
    (seg : DataSeg) (rm : RangeManager)
    → Disjoint 0 rm.ranges
    → AllSent rm.ranges
    → StartsWell rm.ranges
    → Tracked rm
    → Returns (process_ack seg rm)
unfolding process_ack
process_ack-Returns seg rm d sent starts tracked =
    ack_ranges-Returns seg (unacked_keys rm) (record rm { ack_count = rm.ack_count + 1 })
      (keys-NonEmpty rm.highest_acked rm.ranges tracked) d sent starts
      (keys-Known rm.highest_acked rm.ranges d)
