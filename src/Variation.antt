-- ===== src/Variation.antt =====
-- The latency of the ranges and its variation: `registerRecvDiffs`, `makeByteLatencyVariationCDF` and
-- `genAckLatencyData` of RangeManager.cc, on the ranges that are analysed.
mod Histogram
mod Latencies
mod Tests
use analyse_tcp.Prelude.{
  ℕ, ◌+◌, ◌/◌, Bool, true, false, not, ◌&&◌, ltb, ◌==◌, if◌then◌else◌, Option, none, some, List, [],
  ◌∷◌, ◌++◌, get_elem?, Result, ok, or_out_of_range, ◌>>=◌,
}
use analyse_tcp.Prelude.Int.{ℤ, pos, ◌-ℤ◌, ltb_ℤ, eqb_ℤ}
use analyse_tcp.Words.{add32, add64}
use analyse_tcp.Time.{Timeval, get_msecs, quot_ℤ}
use analyse_tcp.Range.{ByteRange, match_received_type, calculate_recv_diff}
use analyse_tcp.RangeMap.{RangeMap}
use analyse_tcp.Intervals.{to_u64}
use analyse_tcp.Intervals.Buckets.{grow_at}
use analyse_tcp.Packets.{to_int32, get_send_ack_time_diff}

-- `registerRecvDiffs`: `last` is the time stamp of the last range that ended a wait of the application layer,
-- which is looked for unless the option `transport` is set.
unfoldable pub recv_diffs_loop : Bool → Option Timeval → RangeMap → Result RangeMap
recv_diffs_loop transport last [] = ok []
recv_diffs_loop transport last ((k, br) ∷ m) =
    let last' : Option Timeval =
      if not (br.data_received_count == 0) && not transport && br.app_layer_latency_tstamp
      then some br.received_tstamp_pcap
      else last in
    (do
      br' ←
          if br.data_received_count == 0
          then ok br
          else calculate_recv_diff last' ((match_received_type br).0)
      rest ← recv_diffs_loop transport last' m
      ok ((k, br') ∷ rest))

unfoldable pub register_recv_diffs : Bool → RangeMap → Result RangeMap
register_recv_diffs transport m = recv_diffs_loop transport none m

-- `map<const long, int>`: from a delay to the number of its bytes, an `int` in the 32-bit word that holds it.
abbrev pub Histogram : Type 0
Histogram = List (ℤ × ℕ)

-- `find`, and the addition to the bucket that it finds, an `int` that is taken to wrap around; or the insertion
-- of a new one.
unfoldable pub add_bytes : ℤ → ℕ → Histogram → Histogram
add_bytes delay bytes [] = (delay, bytes) ∷ []
add_bytes delay bytes ((d, n) ∷ h) =
    if eqb_ℤ d delay then (d, add32 n bytes) ∷ h else (d, n) ∷ add_bytes delay bytes h

-- `GlobStats`, and the values of the connection.
pub record Histograms : Type 0 where
  pub own : Histogram
  pub global : Histogram
  pub tot_num_bytes : ℕ

unfoldable pub cdf_loop : Bool → ℤ → RangeMap → Histograms → Histograms
cdf_loop aggregate lowest [] h = h
cdf_loop aggregate lowest ((k, br) ∷ m) h =
    let delay = br.diff -ℤ lowest in
    cdf_loop aggregate lowest m (record h {
      own = add_bytes delay br.byte_count h.own;
      global = if aggregate then add_bytes delay br.byte_count h.global else h.global;
    })

-- `makeByteLatencyVariationCDF`, with the last sequence number, which `getNumBytes` returns.
unfoldable pub make_byte_latency_variation_cdf : Bool → ℤ → ℕ → RangeMap → Histograms → Histograms
make_byte_latency_variation_cdf aggregate lowest last_seq m h =
    let h' = cdf_loop aggregate lowest m h in
    record h' { tot_num_bytes = add64 h'.tot_num_bytes last_seq }

-- `LatencyItem`, less the key of the connection.
pub record LatencyItem : Type 0 where
  pub time_ms : ℤ
  pub latency_ms : ℤ

-- An item at the end of the vector at an index, and the vectors up to it: `update_vectors_size`.
abbrev pub push_item : ℕ → LatencyItem → List (List LatencyItem) → List (List LatencyItem)
push_item i item v = grow_at [] i (λ l. l ++ item ∷ []) v

-- The item of a range, if it was acked later than it was sent.
unfoldable pub latency_item : ℤ → ByteRange → Result (Option LatencyItem)
latency_item first br = do
  latency ← get_send_ack_time_diff br
  if ltb_ℤ (pos 0) latency
      then (do
        sent ← or_out_of_range (get_elem? br.sent_tstamp_pcap 0)
        ok (
            some (record {
              time_ms = to_int32 (to_u64 (get_msecs sent.0 -ℤ first));
              latency_ms = quot_ℤ latency 1000;
            })))
      else ok none

-- All vectors up to the one for this number of retransmissions are made before the items are added.
unfoldable pub store_item :
    ℕ → Option LatencyItem → List (List LatencyItem) → List (List LatencyItem)
store_item retrans none v = v
store_item retrans (some item) v =
    let all = push_item 0 item (grow_at [] retrans (λ l. l) v) in
    if retrans == 0 then all else push_item retrans item all

-- `genAckLatencyData`
unfoldable pub gen_ack_latency_data :
    ℤ → RangeMap → List (List LatencyItem) → Result (List (List LatencyItem))
gen_ack_latency_data first [] v = ok v
gen_ack_latency_data first ((k, br) ∷ m) v = do
  item ← latency_item first br
  gen_ack_latency_data first m (store_item br.packet_retrans_count item v)
