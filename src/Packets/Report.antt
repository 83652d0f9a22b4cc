-- ===== src/Packets/Report.antt =====
-- What `genStats` leaves: the sizes, the latencies, the counts, and the number and order of the packets.
use analyse_tcp.Prelude.{
  ℕ, suc, ◌+◌, ◌%◌, ◌<◌, ◌≡◌, refl, ap, ◌∙◌, Bool, true, false, ◌==◌, if◌then◌else◌, List, [], ◌∷◌,
  length, ok, arith, Bool-cases, inl, inr,
}
use analyse_tcp.Prelude.Int.{pos, ◌+ℤ◌}
use analyse_tcp.Words.{u32_mod, u64_mod}
use analyse_tcp.Range.{to_ℕ}
use analyse_tcp.RangeMap.{RangeMap}
use analyse_tcp.Stats.{BaseStats, new_stats, compute_percentiles, make_stats}
use analyse_tcp.Stats.Tally.{Tally, sum, least, greatest, new_stats-Tally}
use analyse_tcp.Intervals.Buckets.{get_or}
use analyse_tcp.Intervals.Grouped.{sum_over}
use analyse_tcp.Packets.{SegmentStats, PacketsStats, new_packets_stats}
use analyse_tcp.Packets.Gen.{first_with_data, gen_itt, gen_stats}
use analyse_tcp.Packets.Gathered.{Gathered, dupacks_at, retrans_at}
use analyse_tcp.Packets.Itt.{InOrder, gaps, last_time, sum-gaps, itt_loop-Tally, length-gaps}
use analyse_tcp.Packets.Whole.{AllTimely, all_sizes, all_latencies, all_packets, gen_loop-Gathered}

-- No packet is before the one in front of it.
abbrev pub Chronological : List SegmentStats → Type 0
Chronological [] = Unit {0}
Chronological (s ∷ l) = InOrder s.send_time_us l

abbrev pub count : (SegmentStats → Bool) → List SegmentStats → ℕ
count p [] = 0
count p (s ∷ l) = to_ℕ (p s) + count p l

-- What `std::sort` by the send time does: it puts the same packets in order.
pub record IsSort (sort : List SegmentStats → List SegmentStats) : Type 0 where
  pub sorted : (l : List SegmentStats) → Chronological (sort l)
  pub kept : (p : SegmentStats → Bool) (l : List SegmentStats) → count p (sort l) ≡ count p l

-- The fields are those of the values `l`, but that statistics without values are not valid.
pub record Listed (l : List ℕ) (st : BaseStats) : Type 0 where
  pub listed : st.values ≡ l
  pub counted : st.counter ≡ length l % u32_mod
  pub summed : st.cum ≡ sum l % u64_mod
  pub lower : st.min_value ≡ least l
  pub upper : st.max_value ≡ greatest l
  pub usable : st.valid ≡ (if length l == 0 then false else true)

make_stats-Listed :
    (l : List ℕ) (st : BaseStats)
    → Tally l st
    → length l < u32_mod
    → (st' : BaseStats) × (make_stats [] st ≡ ok st') × Listed l st'
unfolding make_stats compute_percentiles
make_stats-Listed l st t few =
    let number : length st.values ≡ length l = ap length t.listed in
    let agrees : (length st.values == st.counter) ≡ true = ground (arith, t.counted) in
    elim (Bool-cases (length st.values == 0)) [
      | inl z ↦ (
        record st { valid = false },
        rw z refl,
        record {
          listed = t.listed;
          counted = t.counted;
          summed = t.summed;
          lower = t.lower;
          upper = t.upper;
          usable = ground arith;
        },
      )
      | inr z ↦ (
        st,
        rw (z, agrees) refl,
        record {
          listed = t.listed;
          counted = t.counted;
          summed = t.summed;
          lower = t.lower;
          upper = t.upper;
          usable = t.usable ∙ ground arith;
        },
      )
    ]

count-length : (l : List SegmentStats) → count (λ s. true) l ≡ length l
count-length [] = refl
count-length (s ∷ l) = omega (arith, count-length l)

gen_itt-Tally :
    (l : List SegmentStats) (st : BaseStats)
    → Tally [] st
    → st.is_aggregate ≡ false
    → Chronological l
    → 0 < length l
    → (s : SegmentStats) × (rest : List SegmentStats) × (itt : BaseStats) × (gen_itt l st
        ≡ ok (s ∷ rest, itt))
      × Tally (gaps s.send_time_us rest) itt
      × InOrder s.send_time_us rest
      × (length (s ∷ rest) ≡ length l)
unfolding gen_itt
gen_itt-Tally [] st t own o some_left = let none_left : ⊥ = omega arith in elim none_left [ ]
gen_itt-Tally (s ∷ l) st t own o some_left =
    let (r, e, t', stamped) = itt_loop-Tally s.send_time_us l [] st t own in
    let v = stamped s.send_time_us in
    (s, r.0, r.1, rw e refl, rw v.same_gaps t', v.order o, ap suc v.in_number)

-- What the statistics of the packets hold for the ranges `m`, with the first packet and the others.
pub record IsReport (m : RangeMap) (s : SegmentStats) (rest : List SegmentStats) (bs : PacketsStats)
    : Type 0 where
  pub sizes : Listed (all_sizes m) bs.packet_length
  pub latencies : Listed (all_latencies m) bs.latency
  pub dups : (j : ℕ) → get_or bs.dupacks j 0 ≡ sum_over (dupacks_at j) m
  pub agains : (j : ℕ) → get_or bs.retrans j 0 ≡ sum_over (retrans_at j) m
  pub packets : bs.packet_stats ≡ s ∷ rest
  pub number : length bs.packet_stats ≡ all_packets m
  pub order : InOrder s.send_time_us rest
  pub times : Listed (gaps s.send_time_us rest) bs.itt
  pub total : last_time s.send_time_us rest ≡ s.send_time_us +ℤ pos (sum (gaps s.send_time_us rest))

-- With no percentiles asked for, on fresh statistics, with a sort that puts the packets in order, for ranges of which none is acked before
-- it is sent, with at least one packet, and fewer than 2^32 packets, sizes and latencies: genStats returns.
-- The packet sizes are those of the ranges with data, once for each transmission; the latencies are those of
-- the ranges that are acked; the counts of duplicate acks and of retransmissions at each place are the
-- numbers of ranges with more of them; each packet is listed, in the order of time, and the times between
-- the packets with a size add up to the time from the first packet to the last of them.
pub gen_stats-IsReport :
    (sort : List SegmentStats → List SegmentStats) (m behind : RangeMap)
    → IsSort sort
    → AllTimely m
    → 0 < all_packets m
    → all_packets m < u32_mod
    → length (all_sizes m) < u32_mod
    → length (all_latencies m) < u32_mod
    → (s : SegmentStats) × (rest : List SegmentStats) × (bs : PacketsStats) × (gen_stats [] sort m
          behind
          (new_packets_stats false)
        ≡ ok bs)
      × IsReport m s rest bs
unfolding gen_stats
gen_stats-IsReport sort m behind is_sort timely some_packet few few_sizes few_latencies =
    let fresh = new_stats-Tally false in
    let start : Gathered [] [] (λ j. 0) (λ j. 0) 0 (new_stats false) (new_packets_stats false) =
      record {
        sized = fresh;
        size_own = refl;
        delayed = fresh;
        delay_own = refl;
        dups = λ j. refl;
        agains = λ j. refl;
        in_number = refl;
        same_itt = refl;
      } in
    let (mid, e, g) =
      gen_loop-Gathered (new_stats false) m
        (record { pifs = 0; last_acked = first_with_data m behind }) [] [] (λ j. 0) (λ j. 0) 0
        (new_packets_stats false) timely start in
    let listed = sort mid.packet_stats in
    let number : length listed ≡ all_packets m = omega (
      arith,
      count-length listed,
      count-length mid.packet_stats,
      is_sort.kept (λ s. true) mid.packet_stats,
      g.in_number,
    ) in
    let (s, rest, itt, e', t, o, same) =
      gen_itt-Tally listed mid.itt (rw g.same_itt fresh) (rw g.same_itt refl)
        (is_sort.sorted mid.packet_stats) (omega arith) in
    let (latency, el, ll) =
      make_stats-Listed (all_latencies m) mid.latency g.delayed few_latencies in
    let (lengths, es, ls) = make_stats-Listed (all_sizes m) mid.packet_length g.sized few_sizes in
    let (itt', ei, li) =
      make_stats-Listed (gaps s.send_time_us rest) itt t
        (omega (arith, length-gaps s.send_time_us rest)) in
    (
      s,
      rest,
      record mid {
        packet_stats = s ∷ rest;
        latency = latency;
        packet_length = lengths;
        itt = itt';
      },
      rw (e, e', el, es, ei) refl,
      record {
        sizes = ls;
        latencies = ll;
        dups = λ j. omega (arith, g.dups j);
        agains = λ j. omega (arith, g.agains j);
        packets = refl;
        number = omega arith;
        order = o;
        times = li;
        total = sum-gaps s.send_time_us rest o;
      },
    )
