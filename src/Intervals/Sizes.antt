-- ===== src/Intervals/Sizes.antt =====
-- The sizes of the packets of a connection by interval: `PacketSize` and `PacketSizeGroup` of
-- statistics_common.h, `registerPacketSize` and `writePacketByteCountAndITT` of Connection.cc, and the sum
-- over all connections that `ByteCountGroupedByInterval` of Statistics.cc makes. The vectors `packetSizes`
-- and `packetSizeGroups`, which grow together, are one of pairs.
use analyse_tcp.Prelude.{
  ℕ, ◌%◌, Bool, if◌then◌else◌, Option, none, some, List, [], ◌∷◌, ◌++◌, map, Result,
  or_out_of_range, ok, ◌>>=◌,
}
use analyse_tcp.Prelude.Int.{ℤ, ◌-ℤ◌}
use analyse_tcp.Words.{add64, u16_mod}
use analyse_tcp.Time.{Timeval, get_msecs, get_usecs, quot_ℤ}
use analyse_tcp.Intervals.{interval_idx}
use analyse_tcp.Intervals.Buckets.{grow_at}

pub record PacketSize : Type 0 where
  pub time : Timeval
  pub packet_size : ℕ
  pub payload_size : ℕ
  pub retrans : Bool

pub record PacketSizeGroup : Type 0 where
  pub packet_sizes : List PacketSize
  pub packet_size_bytes : ℕ
  pub payload_bytes : ℕ
  pub retrans_payload_bytes : ℕ
  pub size : ℕ

abbrev pub empty_group : PacketSizeGroup
empty_group = record {
  packet_sizes = [];
  packet_size_bytes = 0;
  payload_bytes = 0;
  retrans_payload_bytes = 0;
  size = 0;
}

-- `PacketSizeGroup::add`
unfoldable pub add_size : PacketSize → PacketSizeGroup → PacketSizeGroup
add_size ps g = record {
  packet_sizes = g.packet_sizes ++ ps ∷ [];
  packet_size_bytes = add64 g.packet_size_bytes ps.packet_size;
  payload_bytes = add64 g.payload_bytes ps.payload_size;
  retrans_payload_bytes =
      if ps.retrans then add64 g.retrans_payload_bytes ps.payload_size else g.retrans_payload_bytes;
  size = add64 g.size 1;
}

-- `PacketSizeGroup::operator+=`
unfoldable pub add_group : PacketSizeGroup → PacketSizeGroup → PacketSizeGroup
add_group rhs g = record g {
  packet_size_bytes = add64 g.packet_size_bytes rhs.packet_size_bytes;
  payload_bytes = add64 g.payload_bytes rhs.payload_bytes;
  retrans_payload_bytes = add64 g.retrans_payload_bytes rhs.retrans_payload_bytes;
  size = add64 g.size rhs.size;
}

abbrev pub SizeVector : Type 0
SizeVector = List (List PacketSize × PacketSizeGroup)

-- A packet as libpcap reports it: its time and its length on the wire, a 32-bit word; with the payload and
-- the mark of a retransmission that the analysis gives it.
pub record Capture : Type 0 where
  pub ts : Timeval
  pub wire_length : ℕ
  pub payload : ℕ
  pub is_retrans : Bool

-- The `PacketSize` of a packet, whose length is cut to 16 bits.
abbrev pub packet_of : Capture → PacketSize
packet_of c = record {
  time = c.ts;
  packet_size = c.wire_length % u16_mod;
  payload_size = c.payload;
  retrans = c.is_retrans;
}

-- `registerPacketSize`, for intervals of `length_ms` milliseconds from the time `first` on.
unfoldable pub register_packet_size : ℕ → Timeval → Capture → SizeVector → SizeVector
register_packet_size length_ms first c v =
    grow_at ([], empty_group) (interval_idx length_ms (get_msecs first) c.ts)
      (λ b. (b.0 ++ packet_of c ∷ [], add_size (packet_of c) b.1)) v

-- A line of the file that writePacketByteCountAndITT writes.
pub record Line : Type 0 where
  pub tstamp : ℤ
  pub itt : ℤ
  pub payload_size : ℕ
  pub packet_size : ℕ

-- The inner loop: the lines of an interval, and the time of its last packet.
unfoldable pub packet_lines : ℤ → List PacketSize → List Line × ℤ
packet_lines prev [] = ([], prev)
packet_lines prev (p ∷ ps) =
    let now = get_usecs p.time in
    let line : Line = record {
      tstamp = now;
      itt = quot_ℤ (now -ℤ prev) 1000;
      payload_size = p.payload_size;
      packet_size = p.packet_size;
    } in
    let rest = packet_lines now ps in (line ∷ rest.0, rest.1)

unfoldable pub interval_lines : ℤ → SizeVector → List Line
interval_lines prev [] = []
interval_lines prev (b ∷ v) = let r = packet_lines prev b.0 in r.0 ++ interval_lines r.1 v

-- The first packet of the first interval that is not empty.
unfoldable pub first_packet : SizeVector → Option PacketSize
first_packet [] = none
first_packet (b ∷ v) = elim b.0 as (λ _. Option PacketSize) [
  | [] ↦ first_packet v
  | (p ∷ ps) ↦ some p
]

-- `writePacketByteCountAndITT`: the search has no bound.
unfoldable pub write_packet_byte_count_and_itt : SizeVector → Result (List Line)
write_packet_byte_count_and_itt v = do
  p ← or_out_of_range (first_packet v)
  ok (interval_lines (get_usecs p.time) v)

-- The loop of `writeStats` over the groups of a connection: the groups of all connections, which are grown
-- to as many, and increased.
unfoldable pub add_groups : List PacketSizeGroup → List PacketSizeGroup → List PacketSizeGroup
add_groups aggr [] = aggr
add_groups [] (g ∷ gs) = add_group g empty_group ∷ add_groups [] gs
add_groups (a ∷ aggr) (g ∷ gs) = add_group g a ∷ add_groups aggr gs

-- `writeStatisticsFiles` with that loop, over the connections.
unfoldable pub aggregate_sizes : List PacketSizeGroup → List SizeVector → List PacketSizeGroup
aggregate_sizes aggr [] = aggr
aggregate_sizes aggr (v ∷ vs) = aggregate_sizes (add_groups aggr (map (λ b. b.1) v)) vs
