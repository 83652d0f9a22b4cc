-- ===== src/Range/Counters.antt =====
-- The index of a transmission in ByteRange, which `addSegmentEnteredKernelTime` relies on.
use analyse_tcp.Prelude.{
  ℕ, suc, ◌<◌, ◌≡◌, refl, ap, sym, subst, ◌∙◌, true, false, List, [], ◌∷◌, ◌++◌, Bool,
  if◌then◌else◌, Option, none, some, length, get_elem?, arith, Bool-cases, inl, inr, Result, ok,
}
use analyse_tcp.Prelude.Int.{ℤ, pos, negsuc, ltb_ℤ}
use analyse_tcp.Time.{Timeval, get_usecs}
use analyse_tcp.Range.{ByteRange, SentType, increase_sent, add_segment_entered_kernel_time}

abbrev if_pkt : SentType → Timeval → Option (ℕ × Timeval)
if_pkt SentType.st_pkt t = some (0, t)
if_pkt _ t = none

-- A place in a list, seen from one in front of it; `here` if there is none.
abbrev behind : Option (ℕ × Timeval) → Option (ℕ × Timeval) → Option (ℕ × Timeval)
behind (some (i, t)) here = some (suc i, t)
behind none here = here

-- The latest packet of type ST_PKT in a list of packets: its place and its time.
unfoldable pub latest : List (Timeval × SentType) → Option (ℕ × Timeval)
latest [] = none
latest ((t, type) ∷ l) = behind (latest l) (if_pkt type t)

abbrev index_of : Option (ℕ × Timeval) → ℤ
index_of none = negsuc 0
index_of (some (i, t)) = pos i

-- The index is that of the latest packet of type ST_PKT, and -1 if there is none.
abbrev pub IsIndexed : ByteRange → Type 0
IsIndexed br = br.sent_data_pkt_pcap_index ≡ index_of (latest br.sent_tstamp_pcap)

latest-pkt :
    (t : Timeval) (l : List (Timeval × SentType))
    → latest (l ++ (t, SentType.st_pkt) ∷ []) ≡ some (length l, t)
unfolding latest
latest-pkt t [] = refl
latest-pkt t (x ∷ l) = rw (latest-pkt t l) refl

latest_other :
    (t : Timeval) (type : SentType) (l : List (Timeval × SentType))
    → if_pkt type t ≡ none
    → latest (l ++ (t, type) ∷ []) ≡ latest l
unfolding latest
latest_other t type [] e = e
latest_other t type (x ∷ l) e = ap (λ r. behind r (if_pkt x.1 x.0)) (latest_other t type l e)

-- increase_sent keeps the index on the latest packet of type ST_PKT that the range lists, or at -1 where there
-- is none, for each kind of packet, as long as fewer than 32768 packets are listed.
pub increase_sent-IsIndexed :
    (tsval tsecr : ℕ) (tv : Timeval) (as_rdb : Bool) (type : SentType) (br : ByteRange)
    → length br.sent_tstamp_pcap < 32768
    → IsIndexed br
    → IsIndexed (increase_sent tsval tsecr tv as_rdb type br)
unfolding increase_sent
increase_sent-IsIndexed tsval tsecr tv as_rdb SentType.st_pkt br small h =
    rw (latest-pkt tv br.sent_tstamp_pcap) (ground arith)
increase_sent-IsIndexed tsval tsecr tv as_rdb type br small h =
    h ∙ ap index_of (sym (latest_other tv type br.sent_tstamp_pcap refl))

-- The place is in the list.
get_elem?-latest :
    (l : List (Timeval × SentType)) (i : ℕ) (t : Timeval)
    → latest l ≡ some (i, t)
    → get_elem? l i ≡ some (t, SentType.st_pkt)
unfolding latest
get_elem?-latest [] i t e = cc
get_elem?-latest ((u, type) ∷ l) i t e = at (get_elem?-latest l) (latest l) refl type e
  where
    at :
        ((j : ℕ) (v : Timeval) → latest l ≡ some (j, v) → get_elem? l j ≡ some (v, SentType.st_pkt))
        → (r : Option (ℕ × Timeval)) → latest l ≡ r
        → (type : SentType) → behind r (if_pkt type u) ≡ some (i, t)
        → get_elem? ((u, type) ∷ l) i ≡ some (t, SentType.st_pkt)
    at rest (some (j, v)) e type f =
        let same : ◌≡◌ {A = ℕ × Timeval} (suc j, v) (i, t) = cc in
        subst (λ q. get_elem? ((u, type) ∷ l) q.0 ≡ some (q.1, SentType.st_pkt)) same (rest j v e)
    at rest none e SentType.st_pkt f =
        let same : ◌≡◌ {A = ℕ × Timeval} (0, u) (i, t) = cc in
        subst (λ q. get_elem? ((u, SentType.st_pkt) ∷ l) q.0 ≡ some (q.1, SentType.st_pkt)) same
          refl
    at rest none e SentType.st_none f = cc
    at rest none e SentType.st_rtr f = cc
    at rest none e SentType.st_pure_ack f = cc
    at rest none e SentType.st_rst f = cc

-- With such an index addSegmentEnteredKernelTime reads no packet outside the list, and returns. If the latest
-- transmission of type ST_PKT was before the segment came into the kernel, or if there was none, it
-- changes nothing and returns false; otherwise it appends the time stamp and returns true.
pub add_segment_entered_kernel_time_lem :
    (seq : ℕ) (tv : Timeval) (br : ByteRange)
    → IsIndexed br
    → add_segment_entered_kernel_time seq tv br
      ≡ (elim (latest br.sent_tstamp_pcap) as (λ _. Result (ByteRange × Bool)) [
        | none ↦ ok (br, false)
        | some r ↦
            if ltb_ℤ (get_usecs r.1) (get_usecs tv)
            then ok (br, false)
            else ok (
              record br {
                sojourn_time = true;
                sojourn_tstamps = br.sojourn_tstamps ++ (seq, tv) ∷ [];
              },
              true,
            )
      ])
unfolding add_segment_entered_kernel_time
add_segment_entered_kernel_time_lem seq tv br h = at (latest br.sent_tstamp_pcap) refl h
  where
    at :
        (r : Option (ℕ × Timeval))
        → latest br.sent_tstamp_pcap ≡ r
        → br.sent_data_pkt_pcap_index ≡ index_of r
        → add_segment_entered_kernel_time seq tv br ≡ (elim r as (λ _. Result (ByteRange × Bool)) [
          | none ↦ ok (br, false)
          | some r ↦
              if ltb_ℤ (get_usecs r.1) (get_usecs tv)
              then ok (br, false)
              else ok (
                record br {
                  sojourn_time = true;
                  sojourn_tstamps = br.sojourn_tstamps ++ (seq, tv) ∷ [];
                },
                true,
              )
        ])
    at none e f = ground arith
    at (some (i, t)) e f =
        let there = get_elem?-latest br.sent_tstamp_pcap i t e in
        elim (Bool-cases (ltb_ℤ (get_usecs t) (get_usecs tv))) [
          | inl b ↦ ground (arith, there)
          | inr b ↦ ground (arith, there)
        ]
