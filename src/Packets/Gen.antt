-- ===== src/Packets/Gen.antt =====
-- `RangeManager::genStats` of RangeManager.cc. `m` is the list of the ranges that are analysed, and `behind`
-- that of the ranges behind them, up to `ranges.end()`. The sort of the standard library is a parameter.
use analyse_tcp.Prelude.{
  ℕ, zero, suc, ◌+◌, ◌-◌, ◌*◌, ◌%◌, true, false, ltb, ◌==◌, if◌then◌else◌, Option, none, some, List,
  [], ◌∷◌, ◌++◌, Result, ok, err, Fault, ◌>>=◌,
}
use analyse_tcp.Prelude.Int.{ℤ, pos, ◌-ℤ◌, ltb_ℤ, eqb_ℤ}
use analyse_tcp.Words.{u16_mod, u32_mod, invalid_seq}
use analyse_tcp.Time.{Timeval, get_usecs}
use analyse_tcp.Range.{ByteRange, SentType, to_int16}
use analyse_tcp.RangeMap.{RangeMap}
use analyse_tcp.Intervals.{to_u64}
use analyse_tcp.Stats.{BaseStats, add, make_stats}
use analyse_tcp.Packets.{
  SegmentStats, segment_stats, PacketsStats, get_send_ack_time_diff, get_sojourn_times, to_int32,
}

-- The ranges from the first one with data on, up to `ranges.end()`; none is `ranges.end()`.
unfoldable pub first_with_data : RangeMap → RangeMap → RangeMap
first_with_data [] behind = []
first_with_data ((k, br) ∷ m) behind =
    if br.original_payload_size == 0 then first_with_data m behind else ((k, br) ∷ m) ++ behind

-- The packets in flight, a word of 16 bits, and the ranges from the last acked one on.
pub record Flight : Type 0 where
  pub pifs : ℕ
  pub last_acked : RangeMap

-- The loop over the ranges that were acked before the packet was sent.
unfoldable pub land : ℤ → ℕ → RangeMap → Flight
land sent pifs [] = record { pifs = pifs; last_acked = [] }
land sent pifs ((k, br) ∷ m) =
    if ltb_ℤ (get_usecs br.ack_time) sent
    then land sent ((pifs + u16_mod - 1) % u16_mod) m
    else record { pifs = pifs; last_acked = (k, br) ∷ m }

-- `n` values of the same size, added one by one.
unfoldable pub add_times : ℕ → ℕ → BaseStats → Result BaseStats
add_times zero val st = ok st
add_times (suc n) val st = do st' ← add val st; add_times n val st'

-- A range with data is one more packet in flight, and its size counts for each time that it was sent.
unfoldable pub count_size : ByteRange → Flight → PacketsStats → Result (Flight × PacketsStats)
count_size br f bs = if br.original_payload_size == 0 then ok (f, bs) else (do
  lengths ← add_times (suc br.packet_retrans_count) br.original_payload_size bs.packet_length
  ok (record f { pifs = (f.pifs + 1) % u16_mod }, record bs { packet_length = lengths }))

-- The size of a retransmission: with the range behind it, if that was sent again in other packets.
unfoldable pub retransmitted_size : ByteRange → Option ByteRange → ℕ
retransmitted_size br none = br.original_payload_size
retransmitted_size br (some after) =
    if ltb after.packet_retrans_count after.data_retrans_count
    then (br.original_payload_size + after.data_retrans_count * after.byte_count) % u32_mod
    else br.original_payload_size

-- The statistics of one packet of a range.
unfoldable pub packet_of_range :
    ByteRange
    → Option ByteRange
    → Timeval × SentType
    → Flight
    → Result (Option SegmentStats × Flight)
packet_of_range br after (t, SentType.st_none) f = ok (none, f)
packet_of_range br after (t, SentType.st_pkt) f = do
  times ← get_sojourn_times br
  latency ← get_send_ack_time_diff br
  let f' : Flight = if br.acked then land (get_usecs t) f.pifs f.last_acked else f
  ok (
    some (record (segment_stats SentType.st_pkt (get_usecs t) br.original_payload_size) {
      sojourn_times = times;
      ack_latency_usec = some latency;
      pifs = to_int16 f'.pifs;
    }),
    f',
  )
packet_of_range br after (t, SentType.st_rtr) f = ok (
  some (record (segment_stats SentType.st_rtr (get_usecs t) (retransmitted_size br after)) {
    pifs = to_int16 f.pifs;
  }),
  f,
)
packet_of_range br after (t, SentType.st_pure_ack) f =
    ok (some (segment_stats SentType.st_pure_ack (get_usecs t) 0), f)
packet_of_range br after (t, SentType.st_rst) f =
    ok (some (segment_stats SentType.st_rst (get_usecs t) 0), f)

abbrev pub append_some : List SegmentStats → Option SegmentStats → List SegmentStats
append_some l none = l
append_some l (some s) = l ++ s ∷ []

-- The loop over the packets of a range.
unfoldable pub packets_of_range :
    ByteRange
    → Option ByteRange
    → List (Timeval × SentType)
    → Flight
    → List SegmentStats
    → Result (Flight × List SegmentStats)
packets_of_range br after [] f l = ok (f, l)
packets_of_range br after (t ∷ ts) f l = do
  r ← packet_of_range br after t f
  packets_of_range br after ts r.1 (append_some l r.0)

-- One more in each of the first `n` places, which are made if there are fewer.
unfoldable pub count_first : ℕ → List ℕ → List ℕ
count_first zero v = v
count_first (suc n) [] = 1 ∷ count_first n []
count_first (suc n) (x ∷ v) = (x + 1) ∷ count_first n v

-- The latency of a range, and its retransmissions, if it has a latency or is acked.
unfoldable pub count_latency : ByteRange → PacketsStats → Result PacketsStats
count_latency br bs = do
  latency ← get_send_ack_time_diff br
  if eqb_ℤ latency (pos 0)
      then ok (
          if br.acked
          then record bs { retrans = count_first br.packet_retrans_count bs.retrans }
          else bs)
      else (do
        latencies ← add (to_u64 latency) bs.latency
        ok (record bs {
          latency = latencies;
          retrans = count_first br.packet_retrans_count bs.retrans;
        }))

abbrev pub head_range : RangeMap → Option ByteRange
head_range [] = none
head_range (e ∷ m) = some e.1

-- One round of the loop over the ranges.
unfoldable pub gen_range :
    ByteRange → Option ByteRange → Flight → PacketsStats → Result (Flight × PacketsStats)
gen_range br after f bs = do
  counted ← count_size br f bs
  sent ← packets_of_range br after br.sent_tstamp_pcap counted.0 counted.1.packet_stats
  bs' ← count_latency br (record counted.1 {
    packet_stats = sent.1;
    dupacks = count_first br.dupack_count counted.1.dupacks;
  })
  ok (sent.0, bs')

unfoldable pub gen_loop : RangeMap → Flight → PacketsStats → Result PacketsStats
gen_loop [] f bs = ok bs
gen_loop ((k, br) ∷ m) f bs = do r ← gen_range br (head_range m) f bs; gen_loop m r.0 r.1

-- The loop over the packets in the order of their times: the time between a packet that is no pure ack and
-- the one before it, added to `itt` and written on the packet.
unfoldable pub itt_loop : ℤ → List SegmentStats → BaseStats → Result (List SegmentStats × BaseStats)
itt_loop prev [] st = ok ([], st)
itt_loop prev (s ∷ l) st =
    let gap = s.send_time_us -ℤ prev in
    elim (s.size == 0) as (λ _. Result (List SegmentStats × BaseStats)) [
      | true ↦ do r ← itt_loop prev l st; ok (s ∷ r.0, r.1)
      | false ↦ do
        st' ← add (to_u64 gap) st
        r ← itt_loop s.send_time_us l st'
        ok (record s { itt_usec = to_int32 (to_u64 gap) } ∷ r.0, r.1)
    ]

unfoldable pub gen_itt : List SegmentStats → BaseStats → Result (List SegmentStats × BaseStats)
gen_itt [] st = err Fault.out_of_range
gen_itt (s ∷ l) st = do r ← itt_loop s.send_time_us l st; ok (s ∷ r.0, r.1)

abbrev pub reset_min : BaseStats → BaseStats
reset_min st = record st { min_value = invalid_seq }

-- `genStats`; `places` are those of the percentiles that are asked for.
unfoldable pub gen_stats :
    List (ℕ → ℕ)
    → (List SegmentStats → List SegmentStats)
    → RangeMap
    → RangeMap
    → PacketsStats
    → Result PacketsStats
gen_stats places sort m behind bs = do
  let start : PacketsStats = record bs {
    latency = reset_min bs.latency;
    packet_length = reset_min bs.packet_length;
    itt = reset_min bs.itt;
  }
  bs' ← gen_loop m (record { pifs = 0; last_acked = first_with_data m behind }) start
  r ← gen_itt (sort bs'.packet_stats) bs'.itt
  latency ← make_stats places bs'.latency
  packet_length ← make_stats places bs'.packet_length
  itt ← make_stats places r.1
  ok (record bs' {
    packet_stats = r.0;
    latency = latency;
    packet_length = packet_length;
    itt = itt;
  })
