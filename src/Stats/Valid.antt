-- ===== src/Stats/Valid.antt =====
-- A connection in step passes validateContent.
use analyse_tcp.Prelude.{
  ℕ, ◌+◌, ◌≤◌, ◌<◌, ◌≡◌, ◌≢◌, refl, subst, Bool, true, ltb, leb, ◌==◌, ◌&&◌, ◌||◌, max,
  if◌then◌else◌, Option, none, some, [], ◌∷◌, arith, Bool-cases, inl, inr, ==→eq, ltb→lt, ok,
}
use analyse_tcp.Words.{add64, sub64, u64_mod}
use analyse_tcp.Range.{ByteRange}
use analyse_tcp.RangeMap.{RangeMap}
use analyse_tcp.RangeMap.Order.{Disjoint, beyond}
use analyse_tcp.RangeMap.Cover.{covers}
use analyse_tcp.RangeMap.Pieces.{top}
use analyse_tcp.Conn.{Connection}
use analyse_tcp.Conn.InStep.{InStep}
use analyse_tcp.Conn.Accounts.{Sound}
use analyse_tcp.Stats.Unique.{Spans, filled_first, empty_first}
use analyse_tcp.Stats.Validate.{gap_loop, last_end, validate_content}

-- Behind data, the ranges that follow start where it ends.
abbrev Joined : ℕ → Option ℕ → ℕ → Type 0
Joined tmp none b = Unit {0}
Joined tmp (some n) b = n ≢ 0 → b ≡ tmp

one_range :
    (tmp b rest : ℕ) (prev : Option ℕ) (br : ByteRange)
    → rest ≡ 0
    → Joined tmp prev b
    → br.start_seq ≡ b
    → (if br.start_seq == tmp
          || (elim prev as (λ _. Bool) [ none ↦ true | some n ↦ n == 0 ])
          || br.byte_count == 0
        then rest
        else 1 + rest)
      ≡ 0
one_range tmp b rest none br e j s = ground arith
one_range tmp b rest (some n) br e j s = ground (arith, j)

gap_loop_none :
    (lo b last tmp : ℕ) (prev : Option ℕ) (m : RangeMap)
    → Disjoint lo m
    → Spans b last m
    → Joined tmp prev b
    → gap_loop tmp prev m ≡ 0
unfolding gap_loop
gap_loop_none lo b last tmp prev [] d s j = refl
gap_loop_none lo b last tmp prev ((k, br) ∷ m) d s j = elim (Bool-cases (br.byte_count == 0)) [
  | inl h ↦
      let rest =
        gap_loop_none (beyond k br) b last br.end_seq (some br.byte_count) m d.3
          (empty_first lo b last k br m d s (==→eq _ _ h)) (λ n. ground (arith, h)) in
      ground (arith, rest)
  | inr h ↦
      let (start, end, behind) = filled_first lo b last k br m d s (ground (arith, h)) in
      let rest =
        gap_loop_none (beyond k br) br.end_seq last br.end_seq (some br.byte_count) m d.3 behind
          (λ n. refl) in
      one_range tmp b (gap_loop br.end_seq (some br.byte_count) m) prev br rest j start
]

last_end_low : (lo end : ℕ) (m : RangeMap) → Disjoint lo m → end ≤ lo → end ≤ last_end end m
unfolding last_end
last_end_low lo end [] d h = omega arith
last_end_low lo end ((k, br) ∷ m) d h =
    let (a, st, r, dm) = d in
    omega (arith, last_end_low (beyond k br) br.end_seq m dm (omega arith))

last_end-top : (end : ℕ) (m : RangeMap) → last_end end m ≤ max end (top m)
unfolding last_end top
last_end-top end [] = omega arith
last_end-top end ((k, br) ∷ m) = omega (arith, last_end-top br.end_seq m)

-- The last range ends with the stream.
last_end-Spans :
    (lo b last end : ℕ) (m : RangeMap)
    → Disjoint lo m
    → Spans b last m
    → b < last
    → top m ≤ last
    → last_end end m ≡ last
unfolding last_end top covers
last_end-Spans lo b last end [] d s lt le = ground (arith, s b)
last_end-Spans lo b last end ((k, br) ∷ m) d s lt le = elim (Bool-cases (br.byte_count == 0)) [
  | inl h ↦
      last_end-Spans (beyond k br) b last br.end_seq m d.3
        (empty_first lo b last k br m d s (==→eq _ _ h)) lt (omega arith)
  | inr h ↦
      let (start, up, behind) = filled_first lo b last k br m d s (ground (arith, h)) in
      elim (Bool-cases (ltb br.end_seq last)) [
        | inl g ↦
            last_end-Spans (beyond k br) br.end_seq last br.end_seq m d.3 behind (ltb→lt _ _ g)
              (omega arith)
        | inr g ↦
            let at_end : br.end_seq ≡ last = ground arith in
            omega (
              arith,
              last_end_low (beyond k br) br.end_seq m d.3 (omega arith),
              last_end-top br.end_seq m,
            )
      ]
]

top_tail :
    (k : ℕ) (br : ByteRange) (m : RangeMap) (last : ℕ) → top ((k, br) ∷ m) ≤ last → top m ≤ last
unfolding top
top_tail k br m last h = omega arith

-- A connection in step with its ranges, with accounts that add up, data behind a first range at 0 without
-- data, such as that of the SYN, less than 2^64 bytes and a byte count below 2^64: validateContent
-- finds the ranges aligned at both ends, the bytes adding up and no gap, so that it prints no warning.
pub validate_content_passes :
    (b : ℕ) (c : Connection) (br : ByteRange) (m : RangeMap)
    → InStep b c
    → Sound c
    → c.rm.ranges ≡ (0, br) ∷ m
    → br.byte_count ≡ 0
    → b < c.rm.last_seq
    → c.rm.last_seq < u64_mod
    → c.tot_bytes_sent < u64_mod
    → validate_content c
      ≡ ok (record { first_aligned = true; last_aligned = true; bytes_add_up = true; gaps = 0 })
unfolding validate_content
validate_content_passes b c br m i sound e empty some_data word count_word =
    let last = c.rm.last_seq in
    let d : Disjoint 0 ((0, br) ∷ m) = subst (λ r. Disjoint 0 r) e i.holds.in_order in
    let s : Spans b last ((0, br) ∷ m) = subst (λ r. Spans b last r) e i.holds.exact in
    let t : top ((0, br) ∷ m) ≤ last = subst (λ r. top r ≤ last) e i.holds.ends in
    let behind : Spans b last m = empty_first 0 b last 0 br m d s empty in
    let top_behind : top m ≤ last = top_tail 0 br m last t in
    let end = last_end-Spans (beyond 0 br) b last br.end_seq m d.3 behind some_data top_behind in
    let no_gap = gap_loop_none (beyond 0 br) b last br.end_seq none m d.3 behind tt in
    let first : (br.start_seq == 0) ≡ true = ground (arith, d.1) in
    let at_end : (leb last last && leb (sub64 last 1) last) ≡ true =
      ground (arith, some_data, word) in
    let bytes : (c.tot_bytes_sent
          == add64 (add64 c.tot_new_data_sent c.tot_rdb_bytes_sent) c.tot_retrans_bytes_sent)
        ≡ true =
      ground (arith, sound.balanced, count_word) in
    rw (validate_content, e, end, first, at_end, bytes, no_gap) refl
