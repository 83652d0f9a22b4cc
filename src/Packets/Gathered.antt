-- ===== src/Packets/Gathered.antt =====
-- What the loop of `genStats` over the ranges gathers.
use analyse_tcp.Prelude.{
  ℕ, zero, suc, ◌+◌, ◌%◌, ◌≡◌, refl, sym, ap, ◌∙◌, ◌⊎◌, inl, inr, true, false, not, ◌||◌, ltb, ◌==◌,
  if◌then◌else◌, Option, none, some, List, [], ◌∷◌, ◌++◌, append-nil, append_assoc, replicate,
  length, length-append, ok, arith, Bool-cases,
}
use analyse_tcp.Prelude.Int.{ℤ, pos, ltb_ℤ, eqb_ℤ}
use analyse_tcp.Time.{Timeval, zero_time, is_zero, timersub, get_usecs}
use analyse_tcp.Range.{ByteRange, SentType, is_pkt, to_ℕ}
use analyse_tcp.Intervals.{to_u64}
use analyse_tcp.Stats.{BaseStats}
use analyse_tcp.Stats.Tally.{Tally, add-Tally}
use analyse_tcp.Intervals.Buckets.{get_or}
use analyse_tcp.Packets.{
  SegmentStats, PacketsStats, unsent, get_send_ack_time_diff, sojourn_sent, sojourn_loop,
  get_sojourn_times, to_int32,
}
use analyse_tcp.Packets.Gen.{
  Flight, add_times, count_size, packet_of_range, packets_of_range, append_some, count_first,
  count_latency,
}

-- The time of the first packet.
abbrev pub first_sent : ByteRange → Timeval
first_sent br = elim br.sent_tstamp_pcap as (λ _. Timeval) [ [] ↦ zero_time | (t ∷ ts) ↦ t.0 ]

-- The microseconds from the first packet to the ack, or 0 where one of these is missing.
unfoldable pub latency_of : ByteRange → ℤ
latency_of br =
    if unsent br || is_zero br.ack_time
    then pos 0
    else to_int32 (to_u64 (get_usecs (timersub br.ack_time (first_sent br))))

-- The ack does not come before the packet.
abbrev pub Timely : ByteRange → Type 0
Timely br =
    ((unsent br || is_zero br.ack_time) ≡ true)
    ⊎ (ltb_ℤ (get_usecs (timersub br.ack_time (first_sent br))) (pos 0) ≡ false)

list_cases {ℓ} : {A : Type ℓ} (l : List A) → (l ≡ []) ⊎ ((x : A) × (xs : List A) × (l ≡ x ∷ xs))
list_cases [] = inl refl
list_cases (x ∷ xs) = inr (x, xs, refl)

-- A range that is not unsent has a first packet.
pub sent_cases :
    (br : ByteRange)
    → (unsent br ≡ true)
      ⊎ ((t : Timeval × SentType) × (ts : List (Timeval × SentType)) × (br.sent_tstamp_pcap
            ≡ t ∷ ts))
sent_cases br = elim (list_cases br.sent_tstamp_pcap) [ inl e ↦ inl (rw e refl) | inr e ↦ inr e ]

pub get_send_ack_time_diff_lem :
    (br : ByteRange) → Timely br → get_send_ack_time_diff br ≡ ok (latency_of br)
unfolding get_send_ack_time_diff latency_of
get_send_ack_time_diff_lem br (inl h) = rw h refl
get_send_ack_time_diff_lem br (inr h) = elim (Bool-cases (unsent br || is_zero br.ack_time)) [
  | inl g ↦ rw g refl
  | inr g ↦ elim (sent_cases br) [ inl u ↦ cc | inr (t, ts, e) ↦ rw (g, e, rw e at h) refl ]
]

sojourn_sent-some :
    (t : Timeval × SentType) (ts : List (Timeval × SentType))
    → (s : Timeval) × (sojourn_sent (t ∷ ts) ≡ some s)
unfolding sojourn_sent
sojourn_sent-some t [] = (t.0, refl)
sojourn_sent-some t (u ∷ ts) = elim (Bool-cases (is_pkt t.1)) [
  | inl e ↦ (t.0, rw e refl)
  | inr e ↦ rw e (sojourn_sent-some u ts)
]

get_sojourn_times_ok : (br : ByteRange) → (l : List (ℤ × ℤ)) × (get_sojourn_times br ≡ ok l)
unfolding get_sojourn_times
get_sojourn_times_ok br = elim (Bool-cases (unsent br || not br.sojourn_time)) [
  | inl g ↦ ((pos 0, pos 0) ∷ [], rw g refl)
  | inr g ↦ elim (sent_cases br) [
    | inl u ↦ cc
    | inr (t, ts, e) ↦ (
      sojourn_loop ((sojourn_sent-some t ts).0) br.start_seq br.sojourn_tstamps,
      rw (g, e, (sojourn_sent-some t ts).1) refl,
    )
  ]
]

-- The packets that are of a type.
abbrev pub typed : SentType → ℕ
typed SentType.st_none = 0
typed _ = 1

abbrev pub packets_in : List (Timeval × SentType) → ℕ
packets_in [] = 0
packets_in (t ∷ ts) = typed t.1 + packets_in ts

packet_of_range_ok :
    (br : ByteRange) (after : Option ByteRange) (t : Timeval × SentType) (f : Flight)
    (l : List SegmentStats)
    → Timely br
    → (r : Option SegmentStats × Flight) × (packet_of_range br after t f ≡ ok r)
      × (length (append_some l r.0) ≡ length l + typed t.1)
unfolding packet_of_range
packet_of_range_ok br after (t, SentType.st_none) f l h = ((none, f), refl, omega arith)
packet_of_range_ok br after (t, SentType.st_pkt) f l h =
    let (times, e) = get_sojourn_times_ok br in
    rw (e, get_send_ack_time_diff_lem br h) (_, refl, length-append l _)
packet_of_range_ok br after (t, SentType.st_rtr) f l h = (_, refl, length-append l _)
packet_of_range_ok br after (t, SentType.st_pure_ack) f l h = (_, refl, length-append l _)
packet_of_range_ok br after (t, SentType.st_rst) f l h = (_, refl, length-append l _)

pub packets_of_range_ok :
    (br : ByteRange) (after : Option ByteRange) (ts : List (Timeval × SentType)) (f : Flight)
    (l : List SegmentStats)
    → Timely br
    → (r : Flight × List SegmentStats) × (packets_of_range br after ts f l ≡ ok r)
      × (length r.1 ≡ length l + packets_in ts)
unfolding packets_of_range
packets_of_range_ok br after [] f l h = ((f, l), refl, omega arith)
packets_of_range_ok br after (t ∷ ts) f l h =
    let (r, e, n) = packet_of_range_ok br after t f l h in
    let (q, e', n') = packets_of_range_ok br after ts r.1 (append_some l r.0) h in
    (q, rw e e', omega (arith, n, n'))

-- The sizes that a range adds: one for each time that it was sent.
abbrev pub sizes_of : ByteRange → List ℕ
sizes_of br =
    if br.original_payload_size == 0
    then []
    else replicate (suc br.packet_retrans_count) br.original_payload_size

abbrev pub latencies_of : ByteRange → List ℕ
latencies_of br = if eqb_ℤ (latency_of br) (pos 0) then [] else to_u64 (latency_of br) ∷ []

-- Whether the range counts in place `j` of the duplicate acks, and of the retransmissions.
abbrev pub dupacks_at : ℕ → ByteRange → ℕ
dupacks_at j br = to_ℕ (ltb j br.dupack_count)

abbrev pub retrans_at : ℕ → ByteRange → ℕ
retrans_at j br =
    if not (eqb_ℤ (latency_of br) (pos 0)) || br.acked
    then to_ℕ (ltb j br.packet_retrans_count)
    else 0

-- Statistics that hold these sizes and latencies, and these counts of duplicate acks and retransmissions.
pub record Gathered (sizes latencies : List ℕ) (dupacks retrans : ℕ → ℕ) (packets : ℕ)
    (itt : BaseStats) (bs : PacketsStats) : Type 0 where
  pub sized : Tally sizes bs.packet_length
  pub size_own : bs.packet_length.is_aggregate ≡ false
  pub delayed : Tally latencies bs.latency
  pub delay_own : bs.latency.is_aggregate ≡ false
  pub dups : (j : ℕ) → get_or bs.dupacks j 0 ≡ dupacks j
  pub agains : (j : ℕ) → get_or bs.retrans j 0 ≡ retrans j
  pub in_number : length bs.packet_stats ≡ packets
  pub same_itt : bs.itt ≡ itt

pub get_or-count_first :
    (n j : ℕ) (v : List ℕ) → get_or (count_first n v) j 0 ≡ get_or v j 0 + to_ℕ (ltb j n)
unfolding count_first
get_or-count_first zero j v = ground arith
get_or-count_first (suc n) zero [] = ground arith
get_or-count_first (suc n) (suc j) [] = ground (arith, get_or-count_first n j [])
get_or-count_first (suc n) zero (x ∷ v) = ground arith
get_or-count_first (suc n) (suc j) (x ∷ v) = ground (arith, get_or-count_first n j v)

add_times-Tally :
    (n x : ℕ) (l : List ℕ) (st : BaseStats)
    → Tally l st
    → st.is_aggregate ≡ false
    → (st' : BaseStats) × (add_times n x st ≡ ok st')
      × Tally (l ++ replicate n x) st'
      × (st'.is_aggregate ≡ false)
unfolding add_times
add_times-Tally zero x l st t own = (st, refl, rw (append-nil l) t, own)
add_times-Tally (suc n) x l st t own =
    let (mid, e, tm, om) = add-Tally x l st t own in
    let (st', e', t', o') = add_times-Tally n x (l ++ x ∷ []) mid tm om in
    (st', rw e e', rw (sym (append_assoc l (x ∷ []) (replicate n x))) t', o')

module _ (br : ByteRange) (sizes latencies : List ℕ) (d r : ℕ → ℕ) (n : ℕ) (itt : BaseStats)
    (bs : PacketsStats) where
  pub count_size-Gathered :
      (f : Flight)
      → Gathered sizes latencies d r n itt bs
      → (q : Flight × PacketsStats) × (count_size br f bs ≡ ok q)
        × Gathered (sizes ++ sizes_of br) latencies d r n itt q.1
  unfolding count_size
  count_size-Gathered f g = elim (Bool-cases (br.original_payload_size == 0)) [
    | inl z ↦ ((f, bs), rw z refl, rw (z, append-nil sizes) g)
    | inr z ↦
        let (st, e, t, own) =
          add_times-Tally (suc br.packet_retrans_count) br.original_payload_size sizes
            bs.packet_length g.sized g.size_own in
        (
          (record f { pifs = (f.pifs + 1) % 65536 }, record bs { packet_length = st }),
          rw (z, e) refl,
          rw z (record {
            sized = t;
            size_own = own;
            delayed = g.delayed;
            delay_own = g.delay_own;
            dups = g.dups;
            agains = g.agains;
            in_number = g.in_number;
            same_itt = g.same_itt;
          }),
        )
  ]

  pub count_latency-Gathered :
      Timely br
      → Gathered sizes latencies d r n itt bs
      → (bs' : PacketsStats) × (count_latency br bs ≡ ok bs')
        × Gathered sizes (latencies ++ latencies_of br) d (λ j. r j + retrans_at j br) n itt bs'
  unfolding count_latency
  count_latency-Gathered h g =
      let e = get_send_ack_time_diff_lem br h in
      elim (Bool-cases (eqb_ℤ (latency_of br) (pos 0))) [
        | inl z ↦ elim (Bool-cases br.acked) [
          | inl a ↦ (
            record bs { retrans = count_first br.packet_retrans_count bs.retrans },
            rw (e, z, a) refl,
            rw (z, a, append-nil latencies)
                (record {
                  sized = g.sized;
                  size_own = g.size_own;
                  delayed = g.delayed;
                  delay_own = g.delay_own;
                  dups = g.dups;
                  agains = λ j.
                      get_or-count_first br.packet_retrans_count j bs.retrans
                      ∙ ap (λ k. k + to_ℕ (ltb j br.packet_retrans_count)) (g.agains j);
                  in_number = g.in_number;
                  same_itt = g.same_itt;
                }),
          )
          | inr a ↦ (
            bs,
            rw (e, z, a) refl,
            rw (z, a, append-nil latencies)
                (record {
                  sized = g.sized;
                  size_own = g.size_own;
                  delayed = g.delayed;
                  delay_own = g.delay_own;
                  dups = g.dups;
                  agains = λ j. omega (arith, g.agains j);
                  in_number = g.in_number;
                  same_itt = g.same_itt;
                }),
          )
        ]
        | inr some_latency ↦
            let (st, e', t, own) =
              add-Tally (to_u64 (latency_of br)) latencies bs.latency g.delayed g.delay_own in
            (
              record bs { latency = st; retrans = count_first br.packet_retrans_count bs.retrans },
              rw (e, some_latency, e') refl,
              rw some_latency (record {
                sized = g.sized;
                size_own = g.size_own;
                delayed = t;
                delay_own = own;
                dups = g.dups;
                agains = λ j.
                    get_or-count_first br.packet_retrans_count j bs.retrans
                    ∙ ap (λ k. k + to_ℕ (ltb j br.packet_retrans_count)) (g.agains j);
                in_number = g.in_number;
                same_itt = g.same_itt;
              }),
            )
      ]
