-- ===== src/Intervals/Throughput.antt =====
-- The sums of the throughput, interval by interval.
use analyse_tcp.Prelude.{
  ℕ, zero, suc, ltb, length, ◌≤◌, ◌<◌, ◌+◌, ◌%◌, ◌≡◌, refl, ◌==◌, if◌then◌else◌, List, [], ◌∷◌,
  ◌++◌, map, arith,
}
use analyse_tcp.Words.{u64_mod}
use analyse_tcp.Time.{Timeval, get_msecs}
use analyse_tcp.Intervals.{interval_idx}
use analyse_tcp.Intervals.Buckets.{get_or, get_or-grow_at}
use analyse_tcp.Intervals.Sizes.{
  PacketSizeGroup, empty_group, add_size, add_group, SizeVector, Capture, packet_of,
  register_packet_size, add_groups, aggregate_sizes,
}

-- The four counters of a group stand for these sums.
pub record Counts (g : PacketSizeGroup) (bytes payload again packets : ℕ) : Type 0 where
  pub bytes_counted : g.packet_size_bytes ≡ bytes % u64_mod
  pub payload_counted : g.payload_bytes ≡ payload % u64_mod
  pub again_counted : g.retrans_payload_bytes ≡ again % u64_mod
  pub packets_counted : g.size ≡ packets % u64_mod

-- What a packet brings: its length on the wire, of which 16 bits are kept, its payload, the payload if it
-- is a retransmission, and itself.
abbrev pub wire_bytes : Capture → ℕ
wire_bytes c = c.wire_length % 65536

abbrev pub payload_of : Capture → ℕ
payload_of c = c.payload

abbrev pub again : Capture → ℕ
again c = if c.is_retrans then c.payload else 0

abbrev pub one : Capture → ℕ
one c = 1

module _ (length_ms : ℕ) (first : Timeval) where
  -- The sum of a quantity over the packets of an interval.
  abbrev pub sum_in : (Capture → ℕ) → ℕ → List Capture → ℕ
  sum_in f i [] = 0
  sum_in f i (c ∷ cs) =
      (if interval_idx length_ms (get_msecs first) c.ts == i then f c else 0) + sum_in f i cs

  abbrev pub sum_all : (Capture → ℕ) → ℕ → List (List Capture) → ℕ
  sum_all f i [] = 0
  sum_all f i (cs ∷ css) = sum_in f i cs + sum_all f i css

  -- The packets of a connection, registered one after the other.
  abbrev pub register_all : List Capture → SizeVector → SizeVector
  register_all [] v = v
  register_all (c ∷ cs) v = register_all cs (register_packet_size length_ms first c v)

  -- The group of an interval, increased by what the packets bring.
  abbrev Grown : ℕ → List Capture → PacketSizeGroup → PacketSizeGroup → Type 0
  Grown i cs g g' =
      (g'.packet_size_bytes % u64_mod ≡ (g.packet_size_bytes + sum_in wire_bytes i cs) % u64_mod)
      × (g'.payload_bytes % u64_mod ≡ (g.payload_bytes + sum_in payload_of i cs) % u64_mod)
      × (g'.retrans_payload_bytes % u64_mod
          ≡ (g.retrans_payload_bytes + sum_in again i cs) % u64_mod)
      × (g'.size % u64_mod ≡ (g.size + sum_in one i cs) % u64_mod)

  abbrev group_at : ℕ → SizeVector → PacketSizeGroup
  group_at i v = (get_or v i ([], empty_group)).1

  register_packet_size-Grown :
      (i : ℕ) (c : Capture) (v : SizeVector)
      → Grown i (c ∷ []) (group_at i v) (group_at i (register_packet_size length_ms first c v))
  unfolding register_packet_size add_size
  register_packet_size-Grown i c v = ground (
    arith,
    get_or-grow_at ([], empty_group) (interval_idx length_ms (get_msecs first) c.ts) i
        (λ b. (b.0 ++ packet_of c ∷ [], add_size (packet_of c) b.1)) v,
  )

  register_all-Grown :
      (i : ℕ) (cs : List Capture) (v : SizeVector)
      → Grown i cs (group_at i v) (group_at i (register_all cs v))
  register_all-Grown i [] v = omega arith
  register_all-Grown i (c ∷ cs) v =
      let v' = register_packet_size length_ms first c v in
      ground (arith, register_packet_size-Grown i c v, register_all-Grown i cs v')

  -- The group of an index is increased by the one of the connection.
  add_groups-at :
      (i : ℕ) (aggr : List PacketSizeGroup) (v : SizeVector)
      → get_or (add_groups aggr (map (λ b. b.1) v)) i empty_group ≡ (
          if ltb i (length v)
          then add_group (group_at i v) (get_or aggr i empty_group)
          else get_or aggr i empty_group)
  unfolding add_groups
  add_groups-at i aggr [] = ground arith
  add_groups-at zero [] (b ∷ v) = ground arith
  add_groups-at (suc i) [] (b ∷ v) = ground (arith, add_groups-at i [] v)
  add_groups-at zero (a ∷ aggr) (b ∷ v) = ground arith
  add_groups-at (suc i) (a ∷ aggr) (b ∷ v) = ground (arith, add_groups-at i aggr v)

  -- Behind the end of the vector there is nothing to add.
  behind_end : (i : ℕ) (v : SizeVector) → length v ≤ i → group_at i v ≡ empty_group
  behind_end i [] h = refl
  behind_end zero (b ∷ v) h = let none_left : ⊥ = omega arith in elim none_left [ ]
  behind_end (suc i) (b ∷ v) h = behind_end i v (omega arith)

  abbrev pub vectors : List (List Capture) → List SizeVector
  vectors [] = []
  vectors (cs ∷ css) = register_all cs [] ∷ vectors css

  add_groups-Grown :
      (i : ℕ) (cs : List Capture) (aggr : List PacketSizeGroup)
      → Grown i cs
          (get_or aggr i empty_group)
          (get_or (add_groups aggr (map (λ b. b.1) (register_all cs []))) i empty_group)
  unfolding add_group
  add_groups-Grown i cs aggr =
      let v = register_all cs [] in
      ground (arith, register_all-Grown i cs [], add_groups-at i aggr v, behind_end i v)

  -- Counters of 64 bits.
  abbrev IsWord : PacketSizeGroup → Type 0
  IsWord g =
      (g.packet_size_bytes < u64_mod)
      × (g.payload_bytes < u64_mod)
      × (g.retrans_payload_bytes < u64_mod)
      × (g.size < u64_mod)

  add_groups-IsWord :
      (i : ℕ) (aggr : List PacketSizeGroup) (v : SizeVector)
      → IsWord (get_or aggr i empty_group)
      → IsWord (get_or (add_groups aggr (map (λ b. b.1) v)) i empty_group)
  unfolding add_group
  add_groups-IsWord i aggr v w = ground (arith, add_groups-at i aggr v)

  aggregate_sizes-Counts :
      (i b p a n : ℕ) (css : List (List Capture)) (aggr : List PacketSizeGroup)
      → IsWord (get_or aggr i empty_group)
      → Counts (get_or aggr i empty_group) b p a n
      → Counts
          (get_or (aggregate_sizes aggr (vectors css)) i empty_group)
          (b + sum_all wire_bytes i css)
          (p + sum_all payload_of i css)
          (a + sum_all again i css)
          (n + sum_all one i css)
  unfolding aggregate_sizes
  aggregate_sizes-Counts i b p a n [] aggr w c = record {
    bytes_counted = omega (arith, c.bytes_counted);
    payload_counted = omega (arith, c.payload_counted);
    again_counted = omega (arith, c.again_counted);
    packets_counted = omega (arith, c.packets_counted);
  }
  aggregate_sizes-Counts i b p a n (cs ∷ css) aggr w c =
      let v = register_all cs [] in
      let aggr' = add_groups aggr (map (λ x. x.1) v) in
      let w' = add_groups-IsWord i aggr v w in
      let g = add_groups-Grown i cs aggr in
      let rest =
        aggregate_sizes-Counts i (b + sum_in wire_bytes i cs) (p + sum_in payload_of i cs)
          (a + sum_in again i cs) (n + sum_in one i cs) css aggr' w'
          (record {
            bytes_counted = omega (arith, g.0, w'.0, c.bytes_counted);
            payload_counted = omega (arith, g.1, w'.1, c.payload_counted);
            again_counted = omega (arith, g.2, w'.2, c.again_counted);
            packets_counted = omega (arith, g.3, w'.3, c.packets_counted);
          }) in
      record {
        bytes_counted = omega (arith, rest.bytes_counted);
        payload_counted = omega (arith, rest.payload_counted);
        again_counted = omega (arith, rest.again_counted);
        packets_counted = omega (arith, rest.packets_counted);
      }

  -- Connections that register their packets, and the groups of all of them added up: for each interval the
  -- counters are the number of the packets of all connections in it and the sums of the low 16 bits of their
  -- lengths on the wire, of their payloads and of the payloads of the retransmitted ones, modulo 2^64.
  pub aggregate_sizes_lem :
      (i : ℕ) (css : List (List Capture))
      → Counts
          (get_or (aggregate_sizes [] (vectors css)) i empty_group)
          (sum_all wire_bytes i css)
          (sum_all payload_of i css)
          (sum_all again i css)
          (sum_all one i css)
  aggregate_sizes_lem i css =
      let r = aggregate_sizes-Counts i 0 0 0 0 css [] (omega arith) (record {
        bytes_counted = refl;
        payload_counted = refl;
        again_counted = refl;
        packets_counted = refl;
      }) in
      record {
        bytes_counted = omega (arith, r.bytes_counted);
        payload_counted = omega (arith, r.payload_counted);
        again_counted = omega (arith, r.again_counted);
        packets_counted = omega (arith, r.packets_counted);
      }
