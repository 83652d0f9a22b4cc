-- ===== src/Packets/Whole.antt =====
-- `genStats` as a whole.
use analyse_tcp.Prelude.{
  ℕ, ◌+◌, ◌≡◌, refl, sym, ap, ◌∙◌, List, [], ◌∷◌, ◌++◌, append-nil, append_assoc, ok, arith,
}
use analyse_tcp.Range.{ByteRange}
use analyse_tcp.RangeMap.{RangeMap}
use analyse_tcp.Stats.{BaseStats}
use analyse_tcp.Intervals.Grouped.{sum_over}
use analyse_tcp.Packets.{PacketsStats}
use analyse_tcp.Packets.Gen.{Flight, count_first, head_range, gen_range, gen_loop}
use analyse_tcp.Packets.Gathered.{
  Timely, sizes_of, latencies_of, dupacks_at, retrans_at, packets_in, packets_of_range_ok, Gathered,
  get_or-count_first, count_size-Gathered, count_latency-Gathered,
}

abbrev pub AllTimely : RangeMap → Type 0
AllTimely [] = Unit {0}
AllTimely ((k, br) ∷ m) = Timely br × AllTimely m

-- The sizes and the latencies of all ranges.
abbrev pub all_sizes : RangeMap → List ℕ
all_sizes [] = []
all_sizes ((k, br) ∷ m) = sizes_of br ++ all_sizes m

abbrev pub all_latencies : RangeMap → List ℕ
all_latencies [] = []
all_latencies ((k, br) ∷ m) = latencies_of br ++ all_latencies m

abbrev pub all_packets : RangeMap → ℕ
all_packets = sum_over (λ br. packets_in br.sent_tstamp_pcap)

module _ (itt : BaseStats) where
  gen_range-Gathered :
      (br : ByteRange) (m : RangeMap) (f : Flight) (sizes latencies : List ℕ) (d r : ℕ → ℕ) (n : ℕ)
      (bs : PacketsStats)
      → Timely br
      → Gathered sizes latencies d r n itt bs
      → (q : Flight × PacketsStats) × (gen_range br (head_range m) f bs ≡ ok q)
        × Gathered
            (sizes ++ sizes_of br)
            (latencies ++ latencies_of br)
            (λ j. d j + dupacks_at j br)
            (λ j. r j + retrans_at j br)
            (n + packets_in br.sent_tstamp_pcap)
            itt
            q.1
  unfolding gen_range
  gen_range-Gathered br m f sizes latencies d r n bs h g =
      let (c, e, gc) = count_size-Gathered br sizes latencies d r n itt bs f g in
      let (s, e', number) =
        packets_of_range_ok br (head_range m) br.sent_tstamp_pcap c.0 c.1.packet_stats h in
      let mid : PacketsStats = record c.1 {
        packet_stats = s.1;
        dupacks = count_first br.dupack_count c.1.dupacks;
      } in
      let gm : Gathered (sizes ++ sizes_of br) latencies (λ j. d j + dupacks_at j br) r
          (n + packets_in br.sent_tstamp_pcap) itt mid =
        record {
          sized = gc.sized;
          size_own = gc.size_own;
          delayed = gc.delayed;
          delay_own = gc.delay_own;
          dups = λ j.
              get_or-count_first br.dupack_count j c.1.dupacks
              ∙ ap (λ k. k + dupacks_at j br) (gc.dups j);
          agains = gc.agains;
          in_number = number ∙ ap (λ k. k + packets_in br.sent_tstamp_pcap) gc.in_number;
          same_itt = gc.same_itt;
        } in
      let (bs', e'', g') =
        count_latency-Gathered br (sizes ++ sizes_of br) latencies (λ j. d j + dupacks_at j br) r
          (n + packets_in br.sent_tstamp_pcap) itt mid h gm in
      ((s.0, bs'), rw (e, e', e'') refl, g')

  pub gen_loop-Gathered :
      (m : RangeMap) (f : Flight) (sizes latencies : List ℕ) (d r : ℕ → ℕ) (n : ℕ)
      (bs : PacketsStats)
      → AllTimely m
      → Gathered sizes latencies d r n itt bs
      → (bs' : PacketsStats) × (gen_loop m f bs ≡ ok bs')
        × Gathered
            (sizes ++ all_sizes m)
            (latencies ++ all_latencies m)
            (λ j. d j + sum_over (dupacks_at j) m)
            (λ j. r j + sum_over (retrans_at j) m)
            (n + all_packets m)
            itt
            bs'
  unfolding gen_loop
  gen_loop-Gathered [] f sizes latencies d r n bs h g = (
    bs,
    refl,
    rw (append-nil sizes, append-nil latencies)
        (record {
          sized = g.sized;
          size_own = g.size_own;
          delayed = g.delayed;
          delay_own = g.delay_own;
          dups = λ j. omega (arith, g.dups j);
          agains = λ j. omega (arith, g.agains j);
          in_number = omega (arith, g.in_number);
          same_itt = g.same_itt;
        }),
  )
  gen_loop-Gathered ((k, br) ∷ m) f sizes latencies d r n bs h g =
      let (q, e, gq) = gen_range-Gathered br m f sizes latencies d r n bs h.0 g in
      let (bs', e', g') =
        gen_loop-Gathered m q.0 (sizes ++ sizes_of br) (latencies ++ latencies_of br)
          (λ j. d j + dupacks_at j br) (λ j. r j + retrans_at j br)
          (n + packets_in br.sent_tstamp_pcap) q.1 h.1 gq in
      (
        bs',
        rw e e',
        record {
          sized = rw (sym (append_assoc sizes (sizes_of br) (all_sizes m))) g'.sized;
          size_own = g'.size_own;
          delayed =
              rw (sym (append_assoc latencies (latencies_of br) (all_latencies m))) g'.delayed;
          delay_own = g'.delay_own;
          dups = λ j. omega (arith, g'.dups j);
          agains = λ j. omega (arith, g'.agains j);
          in_number = omega (arith, g'.in_number);
          same_itt = g'.same_itt;
        },
      )
