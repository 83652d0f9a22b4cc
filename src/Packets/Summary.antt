-- ===== src/Packets/Summary.antt =====
-- The statistics of all connections are those of the values of each.
use analyse_tcp.Prelude.{
  ℕ, zero, suc, ◌+◌, ◌≡◌, refl, true, false, List, [], ◌∷◌, ◌++◌, append-nil, append_assoc, Result,
  ok, ◌>>=◌, arith,
}
use analyse_tcp.Stats.{BaseStats}
use analyse_tcp.Stats.Tally.{least, greatest, new_stats-Tally}
use analyse_tcp.Intervals.Buckets.{get_or}
use analyse_tcp.Packets.{PacketsStats}
use analyse_tcp.Packets.Aggregate.{
  Quantity, new_quantity, AggrPacketsStats, new_aggr_packets_stats, add_counts, add_packets_stats,
}
use analyse_tcp.Packets.Quantities.{
  Finished, IsDivision, pick, average_of, Summary, add_quantity-Summary,
}

-- The values of a quantity of all connections, and the number that each one with values has.
abbrev pub all_values : (PacketsStats → BaseStats) → List PacketsStats → List ℕ
all_values f [] = []
all_values f (bs ∷ bss) = (f bs).values ++ all_values f bss

abbrev pub picks : (List ℕ → ℕ) → (PacketsStats → BaseStats) → List PacketsStats → List ℕ
picks g f [] = []
picks g f (bs ∷ bss) = pick g (f bs).values ++ picks g f bss

-- The sum of the counts at a place.
abbrev pub counts_at : ℕ → (PacketsStats → List ℕ) → List PacketsStats → ℕ
counts_at j f [] = 0
counts_at j f (bs ∷ bss) = get_or (f bs) j 0 + counts_at j f bss

abbrev pub add_all_stats :
    (ℕ → ℕ → ℕ) → List PacketsStats → AggrPacketsStats → Result AggrPacketsStats
add_all_stats divide [] aggr = ok aggr
add_all_stats divide (bs ∷ bss) aggr = add_packets_stats divide bs aggr >>= add_all_stats divide bss

get_or-add_counts :
    (j : ℕ) (aggr ns : List ℕ) → get_or (add_counts aggr ns) j 0 ≡ get_or aggr j 0 + get_or ns j 0
unfolding add_counts
get_or-add_counts j aggr [] = omega arith
get_or-add_counts zero [] (n ∷ ns) = omega arith
get_or-add_counts (suc j) [] (n ∷ ns) = get_or-add_counts j [] ns
get_or-add_counts zero (a ∷ aggr) (n ∷ ns) = refl
get_or-add_counts (suc j) (a ∷ aggr) (n ∷ ns) = get_or-add_counts j aggr ns

-- The three quantities of the connections are finished.
abbrev pub AllFinished : List PacketsStats → Type 0
AllFinished [] = Unit {0}
AllFinished (bs ∷ bss) =
    (Finished bs.latency × Finished bs.packet_length × Finished bs.itt) × AllFinished bss

-- The values of a quantity, and those of the connections.
record Values : Type 0 where
  all : List ℕ
  leasts : List ℕ
  averages : List ℕ
  greatests : List ℕ

abbrev no_values : Values
no_values = record { all = []; leasts = []; averages = []; greatests = [] }

abbrev Holds : Values → Quantity → Type 0
Holds v q = Summary v.all v.leasts v.averages v.greatests q

abbrev more : List ℕ → Values → Values
more l v = record {
  all = v.all ++ l;
  leasts = v.leasts ++ pick least l;
  averages = v.averages ++ pick average_of l;
  greatests = v.greatests ++ pick greatest l;
}

-- A quantity over the connections `bss`, behind those before.
abbrev Over : (PacketsStats → BaseStats) → List PacketsStats → Values → Quantity → Type 0
Over f bss v q =
    Summary (v.all ++ all_values f bss) (v.leasts ++ picks least f bss)
      (v.averages ++ picks average_of f bss) (v.greatests ++ picks greatest f bss) q

Over-nil : (f : PacketsStats → BaseStats) (v : Values) (q : Quantity) → Holds v q → Over f [] v q
Over-nil f v q h =
    rw (append-nil v.all, append-nil v.leasts, append-nil v.averages, append-nil v.greatests) h

Over-cons :
    (f : PacketsStats → BaseStats) (bs : PacketsStats) (bss : List PacketsStats) (v : Values)
    (q : Quantity)
    → Over f bss (more (f bs).values v) q
    → Over f (bs ∷ bss) v q
Over-cons f bs bss v q s =
    let l = (f bs).values in
    rw
      (
        ← append_assoc v.all l (all_values f bss),
        ← append_assoc v.leasts (pick least l) (picks least f bss),
        ← append_assoc v.averages (pick average_of l) (picks average_of f bss),
        ← append_assoc v.greatests (pick greatest l) (picks greatest f bss),
      )
      s

-- The three quantities, and the counts.
record AllOver (bss : List PacketsStats) (u v w : Values) (aggr aggr' : AggrPacketsStats)
    : Type 0 where
  latencies : Over (λ bs. bs.latency) bss u aggr'.latency
  lengths : Over (λ bs. bs.packet_length) bss v aggr'.packet_length
  itts : Over (λ bs. bs.itt) bss w aggr'.itt
  agains :
      (j : ℕ)
      → get_or aggr'.retrans j 0 ≡ get_or aggr.retrans j 0 + counts_at j (λ bs. bs.retrans) bss
  dups :
      (j : ℕ)
      → get_or aggr'.dupacks j 0 ≡ get_or aggr.dupacks j 0 + counts_at j (λ bs. bs.dupacks) bss

add_all_stats-AllOver :
    (divide : ℕ → ℕ → ℕ) (bss : List PacketsStats) (u v w : Values) (aggr : AggrPacketsStats)
    → IsDivision divide
    → AllFinished bss
    → Holds u aggr.latency
    → Holds v aggr.packet_length
    → Holds w aggr.itt
    → (aggr' : AggrPacketsStats) × (add_all_stats divide bss aggr ≡ ok aggr')
      × AllOver bss u v w aggr aggr'
unfolding add_packets_stats
add_all_stats-AllOver divide [] u v w aggr exact f hu hv hw = (
  aggr,
  refl,
  record {
    latencies = Over-nil (λ bs. bs.latency) u aggr.latency hu;
    lengths = Over-nil (λ bs. bs.packet_length) v aggr.packet_length hv;
    itts = Over-nil (λ bs. bs.itt) w aggr.itt hw;
    agains = λ j. omega arith;
    dups = λ j. omega arith;
  },
)
add_all_stats-AllOver divide (bs ∷ bss) u v w aggr exact ((fl, fp, fi), f) hu hv hw =
    let (l, el, sl) =
      add_quantity-Summary divide bs.latency.values u.all u.leasts u.averages u.greatests bs.latency
        aggr.latency exact fl.held fl.few fl.small hu in
    let (p, ep, sp) =
      add_quantity-Summary divide bs.packet_length.values v.all v.leasts v.averages v.greatests
        bs.packet_length aggr.packet_length exact fp.held fp.few fp.small hv in
    let (i, ei, si) =
      add_quantity-Summary divide bs.itt.values w.all w.leasts w.averages w.greatests bs.itt
        aggr.itt exact fi.held fi.few fi.small hw in
    let mid : AggrPacketsStats = record {
      latency = l;
      packet_length = p;
      itt = i;
      retrans = add_counts aggr.retrans bs.retrans;
      dupacks = add_counts aggr.dupacks bs.dupacks;
    } in
    let (aggr', e, o) =
      add_all_stats-AllOver divide bss (more bs.latency.values u) (more bs.packet_length.values v)
        (more bs.itt.values w) mid exact f sl sp si in
    (
      aggr',
      rw (el, ep, ei) e,
      record {
        latencies = Over-cons (λ b. b.latency) bs bss u aggr'.latency o.latencies;
        lengths = Over-cons (λ b. b.packet_length) bs bss v aggr'.packet_length o.lengths;
        itts = Over-cons (λ b. b.itt) bs bss w aggr'.itt o.itts;
        agains = λ j. omega (arith, o.agains j, get_or-add_counts j aggr.retrans bs.retrans);
        dups = λ j. omega (arith, o.dups j, get_or-add_counts j aggr.dupacks bs.dupacks);
      },
    )

-- What the statistics of all connections hold.
pub record IsSummary (bss : List PacketsStats) (aggr : AggrPacketsStats) : Type 0 where
  pub latencies :
      Summary
        (all_values (λ bs. bs.latency) bss)
        (picks least (λ bs. bs.latency) bss)
        (picks average_of (λ bs. bs.latency) bss)
        (picks greatest (λ bs. bs.latency) bss)
        aggr.latency
  pub lengths :
      Summary
        (all_values (λ bs. bs.packet_length) bss)
        (picks least (λ bs. bs.packet_length) bss)
        (picks average_of (λ bs. bs.packet_length) bss)
        (picks greatest (λ bs. bs.packet_length) bss)
        aggr.packet_length
  pub itts :
      Summary
        (all_values (λ bs. bs.itt) bss)
        (picks least (λ bs. bs.itt) bss)
        (picks average_of (λ bs. bs.itt) bss)
        (picks greatest (λ bs. bs.itt) bss)
        aggr.itt
  pub agains : (j : ℕ) → get_or aggr.retrans j 0 ≡ counts_at j (λ bs. bs.retrans) bss
  pub dups : (j : ℕ) → get_or aggr.dupacks j 0 ≡ counts_at j (λ bs. bs.dupacks) bss

new_quantity-Holds : Holds no_values new_quantity
new_quantity-Holds = record {
  values = new_stats-Tally true;
  joint = refl;
  leasts_held = new_stats-Tally false;
  leasts_own = refl;
  averages_held = new_stats-Tally false;
  averages_own = refl;
  greatests_held = new_stats-Tally false;
  greatests_own = refl;
}

-- With a division of doubles that is exact below 2^53 up to the cut to a whole number: statistics of
-- connections as makeStats leaves them, with fewer than 2^32 values each whose sum is below 2^53, are added to
-- fresh statistics of all connections. Each call returns, and for the latency, the packet length and the time
-- between packets these then have the values of all connections, and the least value, the average, cut to a
-- whole number, and the greatest value of each connection that has values; and at each place the counts of
-- retransmissions and of duplicate acks are the sums of those of the connections.
pub add_all_stats-IsSummary :
    (divide : ℕ → ℕ → ℕ) (bss : List PacketsStats)
    → IsDivision divide
    → AllFinished bss
    → (aggr : AggrPacketsStats) × (add_all_stats divide bss new_aggr_packets_stats ≡ ok aggr)
      × IsSummary bss aggr
add_all_stats-IsSummary divide bss exact f =
    let q = new_quantity-Holds in
    let (aggr, e, o) =
      add_all_stats-AllOver divide bss no_values no_values no_values new_aggr_packets_stats exact f
        q q q in
    (
      aggr,
      e,
      record {
        latencies = o.latencies;
        lengths = o.lengths;
        itts = o.itts;
        agains = λ j. omega (arith, o.agains j);
        dups = λ j. omega (arith, o.dups j);
      },
    )
