-- ===== src/Manager/AckSplit.antt =====
-- `processAck` on an ack that ends inside a range: the ranges passed on the way are acked, and the range is
-- split at the ack.
use analyse_tcp.Prelude.{
  ℕ, ◌+◌, ◌<◌, ◌≡◌, refl, sym, subst, ap, ◌∙◌, Bool, true, false, not, ltb, ◌==◌, ◌&&◌, ◌||◌,
  if◌then◌else◌, none, some, List, [], ◌∷◌, ◌++◌, arith, Bool-cases, inl, inr, ok, get_elem?,
}
use analyse_tcp.Words.{add8, sub64}
use analyse_tcp.Time.{Timeval, timer_lt}
use analyse_tcp.Range.{ByteRange, SentType, DataSeg, insert_ack_time}
use analyse_tcp.Range.Split.{left_part, right_part, split_end_lem}
use analyse_tcp.RangeMap.{RangeMap, find, set, insert}
use analyse_tcp.RangeMap.Order.{Disjoint, beyond, find-Disjoint}
use analyse_tcp.RangeMap.Pieces.{Refines}
use analyse_tcp.Manager.{RangeManager}
use analyse_tcp.Manager.Ack.{pass_ack, split_ack, ack_loop, ack_ranges, unacked_keys, process_ack}
use analyse_tcp.Manager.Acked.{AckKept, pass_ack-Refines, process_ack-AckKept}

find-set :
    (j k : ℕ) (v br : ByteRange) (m : RangeMap)
    → find k m ≡ some br
    → find j (set k v m) ≡ (if k == j then some v else find j m)
unfolding find set
find-set j k v br [] f = cc
find-set j k v br ((i, c) ∷ m) f = elim (Bool-cases (i == k)) [
  | inl h ↦ ground (arith, h)
  | inr h ↦ ground (arith, h, find-set j k v br m (ground (arith, f, h)))
]

find-insert :
    (j a : ℕ) (r : ByteRange) (m : RangeMap)
    → find a m ≡ none
    → find j (insert a r m) ≡ (if a == j then some r else find j m)
unfolding find insert
find-insert j a r [] f = refl
find-insert j a r ((i, c) ∷ m) f = elim (Bool-cases (i == a)) [
  | inl h ↦ ground (arith, h, f)
  | inr h ↦ ground (arith, h, find-insert j a r m (ground (arith, f, h)))
]

find_below : (a lo : ℕ) (m : RangeMap) → Disjoint lo m → a < lo → find a m ≡ none
unfolding find
find_below a lo [] d h = refl
find_below a lo ((j, c) ∷ m) d h = ground (arith, find_below a (beyond j c) m d.3)

find_inside :
    (a k lo : ℕ) (br : ByteRange) (m : RangeMap)
    → Disjoint lo m
    → find k m ≡ some br
    → k < a
    → a < br.end_seq
    → find a m ≡ none
unfolding find
find_inside a k lo br [] d f ka ab = cc
find_inside a k lo br ((j, c) ∷ m) d f ka ab = elim (Bool-cases (j == k)) [
  | inl h ↦ ground (arith, h, f, find_below a (beyond j c) m d.3)
  | inr h ↦
      let later : find k m ≡ some br = ground (arith, f, h) in
      ground (
        arith,
        h,
        find-Disjoint k (beyond j c) m br d.3 later,
        find_inside a k (beyond j c) br m d.3 later ka ab,
      )
]

-- The ack goes on behind this range: it is further than the range's end, and not before it was sent.
pub record Passed (seg : DataSeg) (br : ByteRange) : Type 0 where
  pub further : br.end_seq < seg.ack
  pub no_ack_range : (br.byte_count == 0 && sub64 seg.ack 1 == br.end_seq) ≡ false
  pub sent : Timeval × SentType
  pub sent_first : get_elem? br.sent_tstamp_pcap 0 ≡ some sent
  pub in_time : timer_lt seg.tstamp_pcap sent.0 ≡ false

-- It goes on behind the ranges at these keys.
abbrev pub AllPassed : DataSeg → RangeMap → List ℕ → Type 0
AllPassed seg m [] = Unit {0}
AllPassed seg m (p ∷ ps) =
    ((br : ByteRange) × (find p m ≡ some br) × Passed seg br) × AllPassed seg m ps

abbrev pub IsAcked : RangeMap → ℕ → Type 0
IsAcked m k = (br : ByteRange) × (find k m ≡ some br) × (br.acked ≡ true)

abbrev pub AllAcked : RangeMap → List ℕ → Type 0
AllAcked m [] = Unit {0}
AllAcked m (p ∷ ps) = IsAcked m p × AllAcked m ps

-- The same range but for the time of its ack; acked ranges stay so.
abbrev SameRange : ByteRange → ByteRange → Type 0
SameRange br br' =
    (br'.start_seq ≡ br.start_seq)
    × (br'.end_seq ≡ br.end_seq)
    × (br'.byte_count ≡ br.byte_count)
    × (br'.sent_tstamp_pcap ≡ br.sent_tstamp_pcap)
    × (br.acked ≡ true → br'.acked ≡ true)

pass_ack-SameRange :
    (seg : DataSeg) (k j : ℕ) (br b : ByteRange) (rm : RangeManager)
    → find k rm.ranges ≡ some br
    → find j rm.ranges ≡ some b
    → (b' : ByteRange) × (find j ((pass_ack seg k br rm).ranges) ≡ some b') × SameRange b b'
unfolding insert_ack_time
pass_ack-SameRange seg k j br b rm f g = elim (Bool-cases br.acked) [
  | inl h ↦ rw h (b, g, (refl, refl, refl, refl, λ a. a))
  | inr h ↦
      let v = insert_ack_time seg.tstamp_pcap br in
      let at = find-set j k v br rm.ranges f in
      elim (Bool-cases (k == j)) [
        | inl s ↦
            let same : k ≡ j = ground (arith, s) in
            let own : some br ≡ some b = sym f ∙ ap (λ i. find i rm.ranges) same ∙ g in
            let own' : br ≡ b = cc in
            rw h (
              v,
              rw (at, s) refl,
              (
                ap (λ (c : ByteRange). c.start_seq) own',
                ap (λ (c : ByteRange). c.end_seq) own',
                ap (λ (c : ByteRange). c.byte_count) own',
                ap (λ (c : ByteRange). c.sent_tstamp_pcap) own',
                λ a. refl,
              ),
            )
        | inr s ↦ rw h (b, rw (at, s) g, (refl, refl, refl, refl, λ a. a))
      ]
]

pass_ack-IsAcked :
    (seg : DataSeg) (k : ℕ) (br : ByteRange) (rm : RangeManager)
    → find k rm.ranges ≡ some br
    → IsAcked ((pass_ack seg k br rm).ranges) k
unfolding insert_ack_time
pass_ack-IsAcked seg k br rm f = elim (Bool-cases br.acked) [
  | inl h ↦ rw h (br, f, h)
  | inr h ↦
      let v = insert_ack_time seg.tstamp_pcap br in
      let self : (k == k) ≡ true = ground arith in
      rw h (v, rw (find-set k k v br rm.ranges f, self) refl, refl)
]

pass_ack-AllPassed :
    (seg : DataSeg) (k : ℕ) (br : ByteRange) (rm : RangeManager) (ps : List ℕ)
    → find k rm.ranges ≡ some br
    → AllPassed seg rm.ranges ps
    → AllPassed seg ((pass_ack seg k br rm).ranges) ps
pass_ack-AllPassed seg k br rm [] f h = tt
pass_ack-AllPassed seg k br rm (p ∷ ps) f ((b, g, passed), h) =
    let (b', found, (start, end, count, times, acked)) = pass_ack-SameRange seg k p br b rm f g in
    (
      (
        b',
        found,
        record {
          further = omega (arith, passed.further, end);
          no_ack_range = ground (arith, passed.no_ack_range, count, end);
          sent = passed.sent;
          sent_first = ap (λ l. get_elem? l 0) times ∙ passed.sent_first;
          in_time = passed.in_time;
        },
      ),
      pass_ack-AllPassed seg k br rm ps f h,
    )

-- The range at `k` from `start` to `end` is split at the ack, its first part is acked, and its second part is
-- the highest range that is; ranges that end before the ack stay acked.
pub record Parted (ack k start end : ℕ) (m : RangeMap) (rm : RangeManager) : Type 0 where
  pub first : ByteRange
  pub first_found : find k rm.ranges ≡ some first
  pub first_start : first.start_seq ≡ start
  pub first_end : first.end_seq ≡ ack
  pub first_acked : first.acked ≡ true
  pub second : ByteRange
  pub second_found : find ack rm.ranges ≡ some second
  pub second_start : second.start_seq ≡ ack
  pub second_end : second.end_seq ≡ end
  pub highest : rm.highest_acked ≡ some ack
  pub stay :
      (j : ℕ) (b : ByteRange)
      → find j m ≡ some b
      → b.end_seq < ack
      → b.acked ≡ true
      → IsAcked rm.ranges j

split_ack-Parted :
    (seg : DataSeg) (k : ℕ) (br : ByteRange) (rm : RangeManager)
    → Disjoint 0 rm.ranges
    → find k rm.ranges ≡ some br
    → br.start_seq < seg.ack
    → seg.ack < br.end_seq
    → (rm' : RangeManager) × (split_ack seg k br rm ≡ ok (rm', true))
      × Parted seg.ack k br.start_seq br.end_seq rm.ranges rm'
unfolding split_ack insert_ack_time
split_ack-Parted seg k br rm d found lo hi =
    let (_, s, r) = find-Disjoint k 0 rm.ranges br d found in
    let left = left_part seg.ack br in
    let acked : ByteRange = record left {
      ack_time = seg.tstamp_pcap;
      acked = true;
      tcp_window = seg.window;
      ack_count = add8 left.ack_count 1;
    } in
    let right = right_part seg.ack br in
    let m' = set k acked rm.ranges in
    let outside : find seg.ack rm.ranges ≡ none =
      find_inside seg.ack k 0 br rm.ranges d found (omega arith) hi in
    let apart : (k == seg.ack) ≡ false = ground (arith, s) in
    let apart' : (seg.ack == k) ≡ false = ground (arith, s) in
    let own : (k == k) ≡ true = ground arith in
    let self : (seg.ack == seg.ack) ≡ true = ground arith in
    let absent : find seg.ack m' ≡ none =
      find-set seg.ack k acked br rm.ranges found
      ∙ ap (λ b. if b then some acked else find seg.ack rm.ranges) apart
      ∙ outside in
    let at : (j : ℕ)
        → find j (insert seg.ack right m') ≡ (if seg.ack == j then some right else find j m') =
      λ j. find-insert j seg.ack right m' absent in
    let there : find k m' ≡ some acked =
      find-set k k acked br rm.ranges found
      ∙ ap (λ b. if b then some acked else find k rm.ranges) own in
    (
      record rm { ranges = insert seg.ack right m'; highest_acked = some seg.ack },
      rw (split_end_lem seg.ack br r (omega arith) (omega arith)) refl,
      record {
        first = acked;
        first_found = at k ∙ ap (λ b. if b then some right else find k m') apart' ∙ there;
        first_start = refl;
        first_end = refl;
        first_acked = refl;
        second = right;
        second_found = at seg.ack ∙ ap (λ b. if b then some right else find seg.ack m') self;
        second_start = refl;
        second_end = refl;
        highest = refl;
        stay = λ j b g e h.
            (b, ground (arith, at j, find-set j k acked br rm.ranges found, outside, found, g), h);
      },
    )

Parted-of :
    (ack k start end start' end' : ℕ) (m m' : RangeMap) (rm : RangeManager)
    → Parted ack k start end m rm
    → start ≡ start'
    → end ≡ end'
    → ((j : ℕ) (b : ByteRange)
        → find j m' ≡ some b
        → b.end_seq < ack
        → b.acked ≡ true
        → IsAcked rm.ranges j)
    → Parted ack k start' end' m' rm
Parted-of ack k start end start' end' m m' rm p s e stay = record {
  first = p.first;
  first_found = p.first_found;
  first_start = p.first_start ∙ s;
  first_end = p.first_end;
  first_acked = p.first_acked;
  second = p.second;
  second_found = p.second_found;
  second_start = p.second_start;
  second_end = p.second_end ∙ e;
  highest = p.highest;
  stay = stay;
}

ack_loop-Parted :
    (seg : DataSeg) (k start end : ℕ) (ps qs : List ℕ) (ret : Bool) (br : ByteRange)
    (rm : RangeManager)
    → Disjoint 0 rm.ranges
    → AllPassed seg rm.ranges ps
    → find k rm.ranges ≡ some br
    → br.start_seq ≡ start
    → br.end_seq ≡ end
    → start < seg.ack
    → seg.ack < end
    → (rm' : RangeManager) × (ack_loop seg (ps ++ k ∷ qs) ret rm ≡ ok (rm', true))
      × Parted seg.ack k start end rm.ranges rm'
      × AllAcked rm'.ranges ps
unfolding ack_loop
ack_loop-Parted seg k start end [] qs ret br rm d passed found s e lo hi =
    let not_end : (seg.ack == br.end_seq || (br.byte_count == 0 && sub64 seg.ack 1 == br.end_seq))
        ≡ false =
      ground arith in
    let not_behind : ltb br.end_seq seg.ack ≡ false = ground arith in
    let inside : (ltb br.start_seq seg.ack && ltb seg.ack br.end_seq) ≡ true = ground arith in
    let (rm', done, parted) = split_ack-Parted seg k br rm d found (omega arith) (omega arith) in
    (
      rm',
      rw (found, not_end, not_behind, inside) done,
      Parted-of seg.ack k br.start_seq br.end_seq start end rm.ranges rm.ranges rm' parted s e
          parted.stay,
      tt,
    )
ack_loop-Parted seg k start end (p ∷ ps) qs ret br rm d ((b, found_p, passed), rest) found s e lo
      hi =
    let rm1 = pass_ack seg p b rm in
    let not_end : (seg.ack == b.end_seq || (b.byte_count == 0 && sub64 seg.ack 1 == b.end_seq))
        ≡ false =
      ground (arith, passed.further, passed.no_ack_range) in
    let behind : ltb b.end_seq seg.ack ≡ true = ground (arith, passed.further) in
    let (br', found', (start', end', count', times', acked')) =
      pass_ack-SameRange seg p k b br rm found_p found in
    let (rm', done, parted, acked) =
      ack_loop-Parted seg k start end ps qs (ret || not b.acked) br' rm1
        (pass_ack-Refines seg p b rm d found_p).0 (pass_ack-AllPassed seg p b rm ps found_p rest)
        found' (start' ∙ s) (end' ∙ e) lo hi in
    let (own, own_found, (own_start, own_end, own_count, own_times, own_acked)) =
      pass_ack-SameRange seg p p b b rm found_p found_p in
    let (c, c_found, c_acked) = pass_ack-IsAcked seg p b rm found_p in
    let both : some own ≡ some c = sym own_found ∙ c_found in
    let same : own ≡ c = cc in
    let is_acked : own.acked ≡ true = ap (λ (r : ByteRange). r.acked) same ∙ c_acked in
    (
      rm',
      rw (found_p, not_end, behind, passed.sent_first, passed.in_time) done,
      Parted-of seg.ack k start end start end rm1.ranges rm.ranges rm' parted refl refl
          (λ j v g h a.
            let (v', g', (vs, ve, vc, vt, va)) = pass_ack-SameRange seg p j b v rm found_p g in
            parted.stay j v' g' (omega (arith, h, ve)) (va a)),
      (parted.stay p own own_found (omega (arith, passed.further)) is_acked, acked),
    )

-- An ack inside the range of the key `k`, on an ordered map, where the ranges from the highest acked one on to that
-- one are passed: they end before the ack, are no empty ranges that the ack ends with, and were not sent
-- behind its time. Then processAck returns true; the range is split at the ack in two, of which the first is
-- acked and the second is the highest acked range now; the ranges on the way are acked; the ranges
-- that ended before the ack and were acked are acked still; and the map is ordered and covers the same
-- bytes.
pub process_ack-Parted :
    (seg : DataSeg) (rm : RangeManager) (k : ℕ) (ps qs : List ℕ) (br : ByteRange)
    → Disjoint 0 rm.ranges
    → unacked_keys rm ≡ ps ++ k ∷ qs
    → AllPassed seg rm.ranges ps
    → find k rm.ranges ≡ some br
    → br.start_seq < seg.ack
    → seg.ack < br.end_seq
    → (rm' : RangeManager) × (process_ack seg rm ≡ ok (rm', true))
      × Parted seg.ack k br.start_seq br.end_seq rm.ranges rm'
      × AllAcked rm'.ranges ps
      × Refines rm.ranges rm'.ranges
unfolding process_ack ack_ranges
process_ack-Parted seg rm k ps qs br d keys passed found lo hi =
    let counted : RangeManager = record rm { ack_count = rm.ack_count + 1 } in
    let (rm', done, parted, acked) =
      ack_loop-Parted seg k br.start_seq br.end_seq ps qs false br counted d passed found refl refl
        lo hi in
    let whole : process_ack seg rm ≡ ok (rm', true) =
      ap (λ ks. ack_ranges seg ks counted) keys ∙ begins ps passed ∙ done in
    (rm', whole, parted, acked, subst (AckKept rm.ranges) whole (process_ack-AckKept seg rm d))
  where
    begins :
        (ps : List ℕ)
        → AllPassed seg rm.ranges ps
        → ack_ranges seg (ps ++ k ∷ qs) (record rm { ack_count = rm.ack_count + 1 })
          ≡ ack_loop seg (ps ++ k ∷ qs) false (record rm { ack_count = rm.ack_count + 1 })
    begins [] h =
        let not_before : ltb seg.ack br.start_seq ≡ false = ground arith in
        rw (found, not_before) refl
    begins (p ∷ ps) ((b, f, passed), h) =
        let (low, s, r) = find-Disjoint p 0 rm.ranges b d f in
        let not_before : ltb seg.ack b.start_seq ≡ false =
          ground (arith, passed.further, r.ordered) in
        rw (f, not_before) refl
