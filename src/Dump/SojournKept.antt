-- ===== src/Dump/SojournKept.antt =====
-- calculateSojournTime leaves the bytes of the ranges alone.
use analyse_tcp.Prelude.{
  ℕ, ◌+◌, ◌%◌, ◌<◌, ◌≡◌, refl, sym, subst, ap, ◌∙◌, Bool, true, false, if◌then◌else◌, max, Option,
  none, some, List, [], ◌∷◌, arith, Bool-cases, inl, inr, Result, ok, err, ◌>>=◌, >>=-eq-ok,
}
use analyse_tcp.Words.{u16_mod, u32_mod, u64_mod}
use analyse_tcp.Range.{DataSeg}
use analyse_tcp.RangeMap.{RangeMap}
use analyse_tcp.RangeMap.Order.{Disjoint}
use analyse_tcp.RangeMap.Cover.{covers}
use analyse_tcp.Insert.{insert_byte_range, InsertType}
use analyse_tcp.Insert.Whole.{Inserted, insert_byte_range-Inserted}
use analyse_tcp.Manager.{segment_fuel}
use analyse_tcp.Conn.{Connection, RelativeSeqType, relative_sequence_number}
use analyse_tcp.Dump.Table.{ConnectionMapKey, lookup, store}
use analyse_tcp.Dump.KeyOrder.{key_before-StrictOrder}
use analyse_tcp.Dump.Entries.{lookup-store, lookup-store_other}
use analyse_tcp.Dump.Events.{same_key}
use analyse_tcp.Dump.Handlers.{Dump}
use analyse_tcp.Dump.Sojourn.{
  SojournLine, sojourn_segment, sojourn_connection, sojourn_line, calculate_sojourn_time,
}
use analyse_tcp.Dump.SojournNumbers.{relative_sequence_number-sojourn_number, sojourn_number_small}

-- The ranges are in order and cover the bytes that `m` covers, and the numbers of the newest line are those that the
-- constructor sets.
pub record Timed (m : RangeMap) (c : Connection) : Type 0 where
  pub in_order : Disjoint 0 c.rm.ranges
  pub same_bytes : (x : ℕ) → covers x c.rm.ranges ≡ covers x m
  pub first_word : c.rm.first_seq < u32_mod
  pub no_end : c.last_largest_sojourn_end_seq ≡ 0
  pub no_absolute : c.last_largest_sojourn_seq_absolute ≡ 0

-- A line with data, of less than 65535 bytes.
abbrev pub IsSized : SojournLine → Type 0
IsSized line = (0 < line.size % u16_mod) × (line.size % u16_mod < 65535)

abbrev Bounded : Result DataSeg → Type 0
Bounded (ok seg) =
    (seg.seq < seg.end_seq) × (seg.end_seq < seg.seq + 65535) × (seg.end_seq < u64_mod)
Bounded (err f) = Unit {0}

abbrev TimedAfter : RangeMap → Result (Connection × Bool) → Type 0
TimedAfter m (ok (c, b)) = Timed m c
TimedAfter m (err f) = Unit {0}

-- The segment of a line.
sojourn_segment-Bounded :
    (line : SojournLine) (c : Connection) (m : RangeMap) (seg : DataSeg)
    → Timed m c
    → IsSized line
    → sojourn_segment line c ≡ ok seg
    → Bounded (ok seg)
unfolding sojourn_segment
sojourn_segment-Bounded line c m seg t (some_data, short) e =
    let a = max (line.seq % u32_mod) (line.seq2 % u32_mod) in
    let (r, number, made) =
      >>=-eq-ok (relative_sequence_number a RelativeSeqType.relseq_soj_seq c) _ e in
    let word : a < u32_mod = omega arith in
    let mapped =
      relative_sequence_number-sojourn_number a c word t.first_word t.no_end t.no_absolute in
    let small = sojourn_number_small a c.rm.first_seq r word (sym mapped ∙ number) in
    subst Bounded made (omega arith, omega arith, omega arith)

sojourn_connection-Timed :
    (line : SojournLine) (c c' : Connection) (b : Bool) (m : RangeMap)
    → Timed m c
    → IsSized line
    → sojourn_connection line c ≡ ok (c', b)
    → Timed m c'
unfolding sojourn_connection
sojourn_connection-Timed line c c' b m t sized e =
    let (seg, made, rest) = >>=-eq-ok (sojourn_segment line c) _ e in
    let (r, inserted, returned) =
      >>=-eq-ok
        (insert_byte_range (segment_fuel seg.seq seg.end_seq) InsertType.insert_sojourn seg
          c.rm.first_seq c.rm.last_seq 0 seg.seq seg.end_seq c.rm.ranges)
        _ rest in
    let (up, short, word) = sojourn_segment-Bounded line c m seg t sized made in
    let (order, grows, top) =
      subst (Inserted InsertType.insert_sojourn seg.seq seg.end_seq c.rm.ranges) inserted (
        insert_byte_range-Inserted (segment_fuel seg.seq seg.end_seq) InsertType.insert_sojourn seg
          c.rm.first_seq c.rm.last_seq 0 seg.seq seg.end_seq c.rm.ranges (omega arith) up short word
          t.in_order (λ s. cc)) in
    subst (TimedAfter m) returned (record {
      in_order = order;
      same_bytes = λ x. ground (arith, grows x, t.same_bytes x);
      first_word = t.first_word;
      no_end = t.no_end;
      no_absolute = t.no_absolute;
    })

-- The connection of a key is in the table, and is so.
pub record TimedAt (key : ConnectionMapKey) (m : RangeMap) (d : Dump) : Type 0 where
  pub connection : Connection
  pub found : lookup key d.conns ≡ some connection
  pub timed : Timed m connection

abbrev TimedLine : ConnectionMapKey → RangeMap → Result (Dump × Bool) → Type 0
TimedLine key m (ok (d, b)) = TimedAt key m d
TimedLine key m (err f) = Unit {0}

-- A line whose connection is found.
found-TimedLine :
    (j key : ConnectionMapKey) (m : RangeMap) (line : SojournLine) (c : Connection) (d : Dump)
    → TimedAt j m d
    → IsSized line
    → lookup key d.conns ≡ some c
    → TimedLine j m
        (sojourn_connection line c >>= λ r. ok (record d { conns = store key r.0 d.conns }, r.1))
found-TimedLine j key m line c d t sized e = returned (sojourn_connection line c) refl
  where
    returned :
        (r : Result (Connection × Bool))
        → sojourn_connection line c ≡ r
        → TimedLine j m (r >>= λ r. ok (record d { conns = store key r.0 d.conns }, r.1))
    returned (err f) made = tt
    returned (ok (c', b)) made = elim (Bool-cases (same_key j key)) [
      | inl h ↦
          let same : j ≡ key =
            (key_before-StrictOrder j key j).2 (ground (arith, h)) (ground (arith, h)) in
          let own : t.connection ≡ c =
            let both : some t.connection ≡ some c =
              sym t.found ∙ ap (λ k. lookup k d.conns) same ∙ e in
            cc in
          record {
            connection = c';
            found = rw same (lookup-store key c' d.conns);
            timed = sojourn_connection-Timed line c c' b m (subst (Timed m) own t.timed) sized made;
          }
      | inr h ↦ record {
        connection = t.connection;
        found = lookup-store_other j key c' d.conns (ground (arith, h)) ∙ t.found;
        timed = t.timed;
      }
    ]

known-TimedLine :
    (j key : ConnectionMapKey) (m : RangeMap) (line : SojournLine) (d : Dump)
    (o : Option Connection)
    → TimedAt j m d
    → IsSized line
    → lookup key d.conns ≡ o
    → TimedLine j m (elim o as (λ _. Result (Dump × Bool)) [
      | none ↦ ok (d, true)
      | some c ↦
          sojourn_connection line c >>= λ r. ok (record d { conns = store key r.0 d.conns }, r.1)
    ])
known-TimedLine j key m line d none t sized e = t
known-TimedLine j key m line d (some c) t sized e = found-TimedLine j key m line c d t sized e

sojourn_line-TimedLine :
    (j : ConnectionMapKey) (m : RangeMap) (line : SojournLine) (d : Dump)
    → TimedAt j m d
    → IsSized line
    → TimedLine j m (sojourn_line line d)
unfolding sojourn_line
sojourn_line-TimedLine j m line d t sized = keyed line.key
  where
    keyed :
        (o : Option ConnectionMapKey)
        → TimedLine j m (elim o as (λ _. Result (Dump × Bool)) [
          | none ↦ ok (d, true)
          | some key ↦ elim (lookup key d.conns) as (λ _. Result (Dump × Bool)) [
            | none ↦ ok (d, true)
            | some c ↦ sojourn_connection line c >>= λ r.
                ok (record d { conns = store key r.0 d.conns }, r.1)
          ]
        ])
    keyed none = t
    keyed (some key) = known-TimedLine j key m line d (lookup key d.conns) t sized refl

abbrev pub AllSized : List SojournLine → Type 0
AllSized [] = Unit {0}
AllSized (line ∷ lines) = IsSized line × AllSized lines

-- Lines with data, of less than 65535 bytes, of any connections, read without a fault: for every
-- connection in the table whose ranges are in order and cover the bytes of `m`, whose first
-- sequence number is a 32-bit word and whose numbers of the newest line are those that the
-- constructor sets, the same holds at the end. The times in the kernel change no byte that is
-- covered.
pub calculate_sojourn_time-TimedAt :
    (j : ConnectionMapKey) (m : RangeMap) (lines : List SojournLine) (d d' : Dump)
    → TimedAt j m d
    → AllSized lines
    → calculate_sojourn_time lines d ≡ ok d'
    → TimedAt j m d'
unfolding calculate_sojourn_time
calculate_sojourn_time-TimedAt j m [] d d' t sized e =
    let same : d ≡ d' = cc in subst (TimedAt j m) same t
calculate_sojourn_time-TimedAt j m (line ∷ lines) d d' t (one, sized) e =
    let ((mid, b), first, later) = >>=-eq-ok (sojourn_line line d) _ e in
    let timed = subst (TimedLine j m) first (sojourn_line-TimedLine j m line d t one) in
    go_on mid b later timed
      (λ returned. calculate_sojourn_time-TimedAt j m lines mid d' timed sized returned)
  where
    go_on :
        (mid : Dump) (b : Bool)
        → (if b then calculate_sojourn_time lines mid else ok mid) ≡ ok d'
        → TimedAt j m mid
        → (calculate_sojourn_time lines mid ≡ ok d' → TimedAt j m d')
        → TimedAt j m d'
    go_on mid true later timed rest = rest later
    go_on mid false later timed rest = let same : mid ≡ d' = cc in subst (TimedAt j m) same timed
