-- ===== src/Manager/Acked.antt =====
-- What `processAck` keeps: the ranges stay ordered and cover the same bytes.
use analyse_tcp.Prelude.{
  ℕ, ◌+◌, ◌<◌, ◌≡◌, refl, ◌∙◌, Bool, true, false, not, ltb, ◌==◌, ◌&&◌, ◌||◌, some, List, [], ◌∷◌,
  arith, Bool-cases, Option-cases, inl, inr, Result, ok, err, Fault, get_elem?,
}
use analyse_tcp.Words.{add8, sub64}
use analyse_tcp.Time.{timer_lt}
use analyse_tcp.Range.{ByteRange, DataSeg, insert_ack_time, register_sacks}
use analyse_tcp.Range.Split.{
  left_part, right_part, split_end_lem, left_part-IsRange, right_part-IsRange,
}
use analyse_tcp.RangeMap.{RangeMap, find, set}
use analyse_tcp.RangeMap.Order.{Disjoint, find-Disjoint}
use analyse_tcp.RangeMap.Pieces.{Refines, same_piece, two_pieces}
use analyse_tcp.Insert.Kept.{SamePlace, SamePlace-IsRange}
use analyse_tcp.Manager.{RangeManager}
use analyse_tcp.Manager.Ack.{
  first_ack, mark_acked, old_ack, fin_ack, earlier_ack, split_ack, pass_ack, ack_loop, ack_ranges,
  unacked_keys, process_ack, isset, keys_before,
}

-- The result's ranges refine those from before, and the only fault is an iterator outside the map.
abbrev pub AckKept : RangeMap → Result (RangeManager × Bool) → Type 0
AckKept m (ok (rm', b)) = Refines m rm'.ranges
AckKept m (err f) = f ≡ Fault.out_of_range

Refines-trans : (m m' m'' : RangeMap) → Refines m m' → Refines m' m'' → Refines m m''
Refines-trans m m' m'' (d, c, t) (d', c', t') = (d', (λ x. c' x ∙ c x), omega arith)

AckKept-trans :
    (m m' : RangeMap) (r : Result (RangeManager × Bool)) → Refines m m' → AckKept m' r → AckKept m r
AckKept-trans m m' (err f) h k = k
AckKept-trans m m' (ok (rm', b)) h k = Refines-trans m m' rm'.ranges h k

set-SamePlace :
    (k : ℕ) (m : RangeMap) (br v : ByteRange)
    → Disjoint 0 m
    → find k m ≡ some br
    → SamePlace br v
    → Refines m (set k v m)
set-SamePlace k m br v d found same =
    let (_, s, r) = find-Disjoint k 0 m br d found in
    same_piece m k br d found v (same.0 ∙ s) same.1 (SamePlace-IsRange br v same r)

mark_acked-SamePlace :
    (seg : DataSeg) (h : Bool) (br : ByteRange) → SamePlace br (mark_acked seg h br)
unfolding mark_acked first_ack insert_ack_time register_sacks
mark_acked-SamePlace seg h br = ground (arith)

insert_ack_time-SamePlace :
    (seg : DataSeg) (br : ByteRange) → SamePlace br (insert_ack_time seg.tstamp_pcap br)
unfolding insert_ack_time
insert_ack_time-SamePlace seg br = (refl, refl, refl)

old_ack-AckKept :
    (ack : ℕ) (ps : List ℕ) (rm : RangeManager)
    → Disjoint 0 rm.ranges
    → AckKept rm.ranges (old_ack ack ps rm)
unfolding old_ack
old_ack-AckKept ack [] rm d = (d, (λ x. refl), omega arith)
old_ack-AckKept ack (p ∷ ps) rm d = elim (Option-cases (find p rm.ranges)) [
  | inl n ↦ rw n refl
  | inr (br, f) ↦ rw f (elim (Bool-cases (ack == br.end_seq)) [
    | inl h ↦ rw h (
        set-SamePlace p rm.ranges br (record br { ack_count = add8 br.ack_count 1 }) d f
          (refl, refl, refl))
    | inr h ↦ rw h (elim (Bool-cases (ltb br.end_seq ack)) [
      | inl l ↦ rw l (d, (λ x. refl), omega arith)
      | inr l ↦ rw l (old_ack-AckKept ack ps rm d)
    ])
  ])
]

fin_ack-AckKept :
    (ack : ℕ) (ps : List ℕ) (rm : RangeManager)
    → Disjoint 0 rm.ranges
    → AckKept rm.ranges (fin_ack ack ps rm)
unfolding fin_ack
fin_ack-AckKept ack [] rm d = refl
fin_ack-AckKept ack (p ∷ ps) rm d = elim (Option-cases (find p rm.ranges)) [
  | inl n ↦ rw n refl
  | inr (br, f) ↦ rw f (elim (Bool-cases (br.fin == 0)) [
    | inr h ↦ rw h (
        set-SamePlace p rm.ranges br (record br { ack_count = add8 br.ack_count 1 }) d f
          (refl, refl, refl))
    | inl h ↦ rw h (elim (Bool-cases (br.packet_sent_count == br.data_sent_count)) [
      | inl l ↦ rw l (old_ack-AckKept ack (p ∷ ps) rm d)
      | inr l ↦ rw l (fin_ack-AckKept ack ps rm d)
    ])
  ])
]

earlier_ack-AckKept :
    (ack : ℕ) (ps : List ℕ) (rm : RangeManager)
    → Disjoint 0 rm.ranges
    → AckKept rm.ranges (earlier_ack ack ps rm)
unfolding earlier_ack
earlier_ack-AckKept ack [] rm d = (d, (λ x. refl), omega arith)
earlier_ack-AckKept ack (p ∷ ps) rm d = elim (Option-cases (find p rm.ranges)) [
  | inl n ↦ rw n refl
  | inr (br, f) ↦ rw f (elim (Bool-cases (sub64 ack 1 == br.end_seq)) [
    | inl h ↦ rw h (fin_ack-AckKept ack (p ∷ ps) rm d)
    | inr h ↦ rw h (old_ack-AckKept ack (p ∷ ps) rm d)
  ])
]

split_ack-AckKept :
    (seg : DataSeg) (k : ℕ) (br : ByteRange) (rm : RangeManager)
    → Disjoint 0 rm.ranges
    → find k rm.ranges ≡ some br
    → br.start_seq < seg.ack
    → seg.ack < br.end_seq
    → AckKept rm.ranges (split_ack seg k br rm)
unfolding split_ack insert_ack_time
split_ack-AckKept seg k br rm d found lo hi =
    let (_, s, r) = find-Disjoint k 0 rm.ranges br d found in
    let left = left_part seg.ack br in
    let acked : ByteRange = record left {
      ack_time = seg.tstamp_pcap;
      acked = true;
      tcp_window = seg.window;
      ack_count = add8 left.ack_count 1;
    } in
    let left_range = left_part-IsRange seg.ack br r (omega arith) (omega arith) in
    rw (split_end_lem seg.ack br r (omega arith) (omega arith)) (
      two_pieces rm.ranges k br d found seg.ack acked (right_part seg.ack br) (omega arith) hi
        (s, refl, SamePlace-IsRange left acked (refl, refl, refl) left_range)
        (refl, refl, right_part-IsRange seg.ack br r (omega arith) (omega arith)))

pub pass_ack-Refines :
    (seg : DataSeg) (k : ℕ) (br : ByteRange) (rm : RangeManager)
    → Disjoint 0 rm.ranges
    → find k rm.ranges ≡ some br
    → Refines rm.ranges ((pass_ack seg k br rm).ranges)
unfolding insert_ack_time
pass_ack-Refines seg k br rm d found = elim (Bool-cases br.acked) [
  | inl h ↦ rw h (d, (λ x. refl), omega arith)
  | inr h ↦ rw h (
      set-SamePlace k rm.ranges br (insert_ack_time seg.tstamp_pcap br) d found
        (insert_ack_time-SamePlace seg br))
]

ack_loop-AckKept :
    (seg : DataSeg) (ks : List ℕ) (ret : Bool) (rm : RangeManager)
    → Disjoint 0 rm.ranges
    → AckKept rm.ranges (ack_loop seg ks ret rm)
unfolding ack_loop
ack_loop-AckKept seg [] ret rm d = (d, (λ x. refl), omega arith)
ack_loop-AckKept seg (k ∷ ks) ret rm d = elim (Option-cases (find k rm.ranges)) [
  | inl n ↦ rw n refl
  | inr (br, f) ↦
      rw f
        (elim (Bool-cases
          (seg.ack == br.end_seq || (br.byte_count == 0 && sub64 seg.ack 1 == br.end_seq))) [
            | inl h ↦ rw h (
                set-SamePlace k rm.ranges br (mark_acked seg (isset rm.highest_acked k) br) d f
                  (mark_acked-SamePlace seg (isset rm.highest_acked k) br))
            | inr h ↦ rw h (elim (Bool-cases (ltb br.end_seq seg.ack)) [
              | inl l ↦ rw l (elim (Option-cases (get_elem? br.sent_tstamp_pcap 0)) [
                | inl n ↦ rw n refl
                | inr (sent, g) ↦ rw g (elim (Bool-cases (timer_lt seg.tstamp_pcap sent.0)) [
                  | inl t ↦ rw t (d, (λ x. refl), omega arith)
                  | inr t ↦
                      let rm' = pass_ack seg k br rm in
                      let kept = pass_ack-Refines seg k br rm d f in
                      rw t (
                        AckKept-trans rm.ranges rm'.ranges
                          (ack_loop seg ks (ret || not br.acked) rm') kept
                          (ack_loop-AckKept seg ks (ret || not br.acked) rm' kept.0))
                ])
              ])
              | inr l ↦
                  rw l (elim (Bool-cases (ltb br.start_seq seg.ack && ltb seg.ack br.end_seq)) [
                    | inl s ↦ rw s (split_ack-AckKept seg k br rm d f (ground arith) (ground arith))
                    | inr s ↦ rw s (earlier_ack-AckKept seg.ack (keys_before k rm.ranges []) rm d)
                  ])
            ])
          ])
]

ack_ranges-AckKept :
    (seg : DataSeg) (ks : List ℕ) (rm : RangeManager)
    → Disjoint 0 rm.ranges
    → AckKept rm.ranges (ack_ranges seg ks rm)
unfolding ack_ranges
ack_ranges-AckKept seg [] rm d = refl
ack_ranges-AckKept seg (k ∷ ks) rm d = elim (Option-cases (find k rm.ranges)) [
  | inl n ↦ rw n refl
  | inr (br, f) ↦ rw f (elim (Bool-cases (ltb seg.ack br.start_seq)) [
    | inl h ↦ rw h (d, (λ x. refl), omega arith)
    | inr h ↦ rw h (ack_loop-AckKept seg (k ∷ ks) false rm d)
  ])
]

-- An ack, on an ordered map, leaves an ordered map that covers the same bytes and ends no later; the
-- only fault is an iterator that is used outside the map.
pub process_ack-AckKept :
    (seg : DataSeg) (rm : RangeManager)
    → Disjoint 0 rm.ranges
    → AckKept rm.ranges (process_ack seg rm)
unfolding process_ack
process_ack-AckKept seg rm d =
    ack_ranges-AckKept seg (unacked_keys rm) (record rm { ack_count = rm.ack_count + 1 }) d
