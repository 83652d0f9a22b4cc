-- ===== src/Packets.antt =====
-- The statistics of each packet: `getSendAckTimeDiff` and `getSojournTimes` of ByteRange.cc, and
-- `SegmentStats` and `PacketsStats` of statistics_common.h. The key of the connection, which each packet
-- gets as `stream_id`, is left out.
pub mod Gen
pub mod Gathered
mod Itt
pub mod Whole
pub mod Aggregate
mod Report
mod Quantities
mod Summary
mod Tests
use analyse_tcp.Prelude.{
  ℕ, zero, suc, ◌+◌, ◌-◌, ◌%◌, Bool, true, false, not, ◌||◌, ltb, if◌then◌else◌, Option, none, some,
  List, [], ◌∷◌, get_elem?, Result, ok, err, assert, or_out_of_range, ◌>>=◌, ◌>>◌,
}
use analyse_tcp.Prelude.Int.{ℤ, pos, negsuc, ltb_ℤ}
use analyse_tcp.Words.{u32_mod, u64_mod, sub64, invalid_seq}
use analyse_tcp.Time.{Timeval, is_zero, timersub, get_usecs}
use analyse_tcp.Range.{ByteRange, SentType, is_pkt}
use analyse_tcp.Intervals.{to_u64}
use analyse_tcp.Stats.{BaseStats, new_stats}

-- The `int` that is left of a wider unsigned word.
abbrev pub to_int32 : ℕ → ℤ
to_int32 n =
    if ltb (n % u32_mod) 2147483648 then pos (n % u32_mod) else negsuc (4294967295 - n % u32_mod)

-- The range has no send time.
abbrev pub unsent : ByteRange → Bool
unsent br = elim br.sent_tstamp_pcap as (λ _. Bool) [ [] ↦ true | (t ∷ ts) ↦ is_zero t.0 ]

-- `getSendAckTimeDiff`: the microseconds up to the ack, as an `int`. For a range with no ack time the
-- search through the ranges only chooses a message.
unfoldable pub get_send_ack_time_diff : ByteRange → Result ℤ
get_send_ack_time_diff br = if unsent br || is_zero br.ack_time then ok (pos 0) else (do
  sent ← or_out_of_range (get_elem? br.sent_tstamp_pcap 0)
  let usec = get_usecs (timersub br.ack_time sent.0)
  assert (not (ltb_ℤ usec (pos 0)))
  ok (to_int32 (to_u64 usec)))

-- The time of the first packet of type ST_PKT, or of the last packet.
unfoldable pub sojourn_sent : List (Timeval × SentType) → Option Timeval
sojourn_sent [] = none
sojourn_sent (t ∷ []) = some t.0
sojourn_sent (t ∷ u ∷ ts) = if is_pkt t.1 then some t.0 else sojourn_sent (u ∷ ts)

-- The bytes up to each time stamp, and the microseconds from it to the sending.
unfoldable pub sojourn_loop : Timeval → ℕ → List (ℕ × Timeval) → List (ℤ × ℤ)
sojourn_loop sent begin_seq [] = []
sojourn_loop sent begin_seq ((seq, t) ∷ ts) =
    (to_int32 (sub64 seq begin_seq), to_int32 (to_u64 (get_usecs (timersub sent t))))
    ∷ sojourn_loop sent seq ts

-- `getSojournTimes`
unfoldable pub get_sojourn_times : ByteRange → Result (List (ℤ × ℤ))
get_sojourn_times br = if unsent br || not br.sojourn_time then ok ((pos 0, pos 0) ∷ []) else (do
  sent ← or_out_of_range (sojourn_sent br.sent_tstamp_pcap)
  ok (sojourn_loop sent br.start_seq br.sojourn_tstamps))

-- `PacketStats` and `SegmentStats`. The constructor does not set `ack_latency_usec`: `none` is no value.
pub record SegmentStats : Type 0 where
  pub s_type : SentType
  pub send_time_us : ℤ
  pub size : ℕ
  pub itt_usec : ℤ
  pub ack_latency_usec : Option ℤ
  pub pifs : ℤ
  pub sojourn_times : List (ℤ × ℤ)

-- The constructor.
abbrev pub segment_stats : SentType → ℤ → ℕ → SegmentStats
segment_stats s_type time size = record {
  s_type = s_type;
  send_time_us = time;
  size = size;
  itt_usec = pos 0;
  ack_latency_usec = none;
  pifs = pos 0;
  sojourn_times = [];
}

-- `PacketsStats` and its base `StreamStats`.
pub record PacketsStats : Type 0 where
  pub latency : BaseStats
  pub packet_length : BaseStats
  pub itt : BaseStats
  pub packet_stats : List SegmentStats
  pub retrans : List ℕ
  pub dupacks : List ℕ

-- The constructor.
abbrev pub new_packets_stats : Bool → PacketsStats
new_packets_stats is_aggregate = record {
  latency = new_stats is_aggregate;
  packet_length = new_stats is_aggregate;
  itt = new_stats is_aggregate;
  packet_stats = [];
  retrans = [];
  dupacks = [];
}
