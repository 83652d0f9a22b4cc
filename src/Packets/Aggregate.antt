-- ===== src/Packets/Aggregate.antt =====
-- `AggrPacketsStats` of statistics_common.h and statistics_common.cc: the statistics of all connections.
use analyse_tcp.Prelude.{ℕ, ◌+◌, ◌==◌, if◌then◌else◌, true, false, List, [], ◌∷◌, Result, ok, ◌>>=◌}
use analyse_tcp.Stats.{BaseStats, new_stats, add, add_to_aggregate}
use analyse_tcp.Packets.{PacketsStats}

-- One quantity: its values over all connections, and the least value, the average and the greatest value of
-- each connection.
pub record Quantity : Type 0 where
  pub aggregated : BaseStats
  pub minimum : BaseStats
  pub average : BaseStats
  pub maximum : BaseStats

abbrev pub new_quantity : Quantity
new_quantity = record {
  aggregated = new_stats true;
  minimum = new_stats false;
  average = new_stats false;
  maximum = new_stats false;
}

-- `AggrPacketsStats`, by quantities, with the counts of retransmissions and duplicate acks of `aggregated`.
pub record AggrPacketsStats : Type 0 where
  pub latency : Quantity
  pub packet_length : Quantity
  pub itt : Quantity
  pub retrans : List ℕ
  pub dupacks : List ℕ

-- The constructor.
abbrev pub new_aggr_packets_stats : AggrPacketsStats
new_aggr_packets_stats = record {
  latency = new_quantity;
  packet_length = new_quantity;
  itt = new_quantity;
  retrans = [];
  dupacks = [];
}

-- What AggrPacketsStats::add takes of `get_avg`, cut to an `ullint_t`; `divide` is the division of doubles,
-- cut so.
unfoldable pub whole_avg : (ℕ → ℕ → ℕ) → BaseStats → ℕ
whole_avg divide st = if st.counter == 0 then 0 else divide st.cum st.counter

unfoldable pub add_quantity : (ℕ → ℕ → ℕ) → BaseStats → Quantity → Result Quantity
add_quantity divide st q = if st.counter == 0 then ok q else (do
  aggregated ← add_to_aggregate st q.aggregated
  average ← add (whole_avg divide st) q.average
  minimum ← add st.min_value q.minimum
  maximum ← add st.max_value q.maximum
  ok (record { aggregated = aggregated; minimum = minimum; average = average; maximum = maximum }))

-- The counts of a connection, added to those of all connections, of which there are made as many.
unfoldable pub add_counts : List ℕ → List ℕ → List ℕ
add_counts aggr [] = aggr
add_counts [] (n ∷ ns) = n ∷ add_counts [] ns
add_counts (a ∷ aggr) (n ∷ ns) = (a + n) ∷ add_counts aggr ns

-- `AggrPacketsStats::add`
unfoldable pub add_packets_stats :
    (ℕ → ℕ → ℕ) → PacketsStats → AggrPacketsStats → Result AggrPacketsStats
add_packets_stats divide bs aggr = do
  latency ← add_quantity divide bs.latency aggr.latency
  packet_length ← add_quantity divide bs.packet_length aggr.packet_length
  itt ← add_quantity divide bs.itt aggr.itt
  ok (record {
    latency = latency;
    packet_length = packet_length;
    itt = itt;
    retrans = add_counts aggr.retrans bs.retrans;
    dupacks = add_counts aggr.dupacks bs.dupacks;
  })
