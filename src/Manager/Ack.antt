-- ===== src/Manager/Ack.antt =====
-- `RangeManager::processAck` of RangeManager.cc, less its printing.
use analyse_tcp.Prelude.{
  ℕ, ◌+◌, Bool, true, false, not, ◌&&◌, ◌||◌, ltb, ◌==◌, if◌then◌else◌, Option, none, some, List,
  [], ◌∷◌, Result, ok, err, Fault, or_out_of_range, get_elem?, ◌>>=◌,
}
use analyse_tcp.Words.{add8, sub64}
use analyse_tcp.Time.{timer_lt}
use analyse_tcp.Range.{ByteRange, DataSeg, insert_ack_time, register_sacks, split_end}
use analyse_tcp.RangeMap.{RangeMap, find, set, insert}
use analyse_tcp.Manager.{RangeManager}

-- The keys from this one on.
unfoldable pub keys_from : ℕ → RangeMap → List ℕ
keys_from k [] = []
keys_from k ((j, br) ∷ m) = if ltb j k then keys_from k m else j ∷ keys_from k m

-- The keys before this one, the last of them first.
abbrev pub keys_before : ℕ → RangeMap → List ℕ → List ℕ
keys_before k [] seen = seen
keys_before k ((j, br) ∷ m) seen = if ltb j k then keys_before k m (j ∷ seen) else seen

abbrev pub isset : Option ℕ → ℕ → Bool
isset none k = false
isset (some j) k = j == k

-- The time of the ack on the range that it ends with. An empty range that carries the time stamp echo
-- of the ack is itself an ack, and gets none.
unfoldable pub first_ack : DataSeg → ByteRange → ByteRange
first_ack seg br =
    let br' : ByteRange = record br { tcp_window = seg.window } in
    if br.byte_count == 0
    then (elim (get_elem? br.tstamps_tcp 0) as (λ _. ByteRange) [
      | none ↦ br'
      | some t ↦ if t.1 == seg.tstamp_tcp then br' else insert_ack_time seg.tstamp_pcap br'
    ])
    else insert_ack_time seg.tstamp_pcap br'

-- The counts of a range that the ack ends with; `highest` says that it was the highest acked one.
unfoldable pub mark_acked : DataSeg → Bool → ByteRange → ByteRange
mark_acked seg highest br =
    let once : ByteRange =
      if not br.acked
      then first_ack seg br
      else if highest
      then (if ltb 0 seg.window && seg.window == br.tcp_window
          then record br { dupack_count = add8 br.dupack_count 1 }
          else record br { tcp_window = seg.window })
      else br in
    let sacked : ByteRange = if seg.sacks then register_sacks seg once else once in
    record sacked { ack_count = add8 sacked.ack_count 1; tcp_window = seg.window }

abbrev count_ack : ℕ → ByteRange → RangeManager → RangeManager
count_ack k br rm = record rm {
  ranges = set k (record br { ack_count = add8 br.ack_count 1 }) rm.ranges;
}

-- The search for the range of data that was acked before.
unfoldable pub old_ack : ℕ → List ℕ → RangeManager → Result (RangeManager × Bool)
old_ack ack [] rm = ok (rm, false)
old_ack ack (p ∷ ps) rm = do
  br ← or_out_of_range (find p rm.ranges)
  if ack == br.end_seq
      then ok (count_ack p br rm, true)
      else if ltb br.end_seq ack
      then ok (rm, true)
      else old_ack ack ps rm

-- The search for a FIN, which ends at a range with no packets but data packets. Before the first range
-- the iterator is decremented out of the map.
unfoldable pub fin_ack : ℕ → List ℕ → RangeManager → Result (RangeManager × Bool)
fin_ack ack [] rm = err Fault.out_of_range
fin_ack ack (p ∷ ps) rm = do
  br ← or_out_of_range (find p rm.ranges)
  if not (br.fin == 0)
      then ok (count_ack p br rm, true)
      else if br.packet_sent_count == br.data_sent_count
      then old_ack ack (p ∷ ps) rm
      else fin_ack ack ps rm

-- The ack is no further than the start of the range.
unfoldable pub earlier_ack : ℕ → List ℕ → RangeManager → Result (RangeManager × Bool)
earlier_ack ack [] rm = ok (rm, false)
earlier_ack ack (p ∷ ps) rm = do
  br ← or_out_of_range (find p rm.ranges)
  if sub64 ack 1 == br.end_seq then fin_ack ack (p ∷ ps) rm else old_ack ack (p ∷ ps) rm

-- The ack ends inside the range at `k`.
unfoldable pub split_ack : DataSeg → ℕ → ByteRange → RangeManager → Result (RangeManager × Bool)
split_ack seg k br rm = do
  r ← split_end seg.ack br.end_seq br
  let first = insert_ack_time seg.tstamp_pcap r.0
  let first' : ByteRange = record first {
    tcp_window = seg.window;
    ack_count = add8 first.ack_count 1;
  }
  ok (
    record rm {
      ranges = insert r.1.start_seq r.1 (set k first' rm.ranges);
      highest_acked = some r.1.start_seq;
    },
    true,
  )

-- The ack goes on behind the range at `k`; `ret` says that a range got its time.
abbrev pub pass_ack : DataSeg → ℕ → ByteRange → RangeManager → RangeManager
pass_ack seg k br rm = record rm {
  ranges = if not br.acked then set k (insert_ack_time seg.tstamp_pcap br) rm.ranges else rm.ranges;
  highest_acked = some k;
}

-- The loop over the ranges from the highest acked one on. Behind the test for a split the ack is below
-- the end of the range: the source's branches behind the search for old data are not reached.
unfoldable pub ack_loop : DataSeg → List ℕ → Bool → RangeManager → Result (RangeManager × Bool)
ack_loop seg [] ret rm = ok (rm, ret)
ack_loop seg (k ∷ ks) ret rm = do
  br ← or_out_of_range (find k rm.ranges)
  if seg.ack == br.end_seq || (br.byte_count == 0 && sub64 seg.ack 1 == br.end_seq)
      then ok (
        record rm {
          ranges = set k (mark_acked seg (isset rm.highest_acked k) br) rm.ranges;
          highest_acked = some k;
        },
        true,
      )
      else if ltb br.end_seq seg.ack
      then (do
        sent ← or_out_of_range (get_elem? br.sent_tstamp_pcap 0)
        if timer_lt seg.tstamp_pcap sent.0
            then ok (rm, false)
            else ack_loop seg ks (ret || not br.acked) (pass_ack seg k br rm))
      else if ltb br.start_seq seg.ack && ltb seg.ack br.end_seq
      then split_ack seg k br rm
      else earlier_ack seg.ack (keys_before k rm.ranges []) rm

-- The keys from the highest acked one on; the search starts with them.
abbrev pub unacked_keys : RangeManager → List ℕ
unacked_keys rm = elim rm.highest_acked [
  | none ↦ keys_from 0 rm.ranges
  | some k ↦ keys_from k rm.ranges
]

-- The test for data that was acked before, and the loop.
unfoldable pub ack_ranges : DataSeg → List ℕ → RangeManager → Result (RangeManager × Bool)
ack_ranges seg [] rm = err Fault.out_of_range
ack_ranges seg (k ∷ ks) rm = do
  br ← or_out_of_range (find k rm.ranges)
  if ltb seg.ack br.start_seq then ok (rm, true) else ack_loop seg (k ∷ ks) false rm

-- `processAck`
unfoldable pub process_ack : DataSeg → RangeManager → Result (RangeManager × Bool)
unfolding ack_ranges
process_ack seg rm =
    let counted : RangeManager = record rm { ack_count = rm.ack_count + 1 } in
    ack_ranges seg (unacked_keys rm) counted
