-- ===== src/Dump/Sojourn.antt =====
-- `Dump::calculateSojournTime` of Dump.cc on the lines of its file, read as numbers: the times at which
-- segments entered the kernel are added to the ranges.
use analyse_tcp.Prelude.{
  ℕ, ◌/◌, ◌%◌, Bool, true, if◌then◌else◌, max, Option, none, some, List, [], ◌∷◌, Result, ok, ◌>>=◌,
}
use analyse_tcp.Prelude.Int.{pos}
use analyse_tcp.Words.{add64, u16_mod, u32_mod}
use analyse_tcp.Range.{DataSeg}
use analyse_tcp.Insert.{insert_byte_range, InsertType}
use analyse_tcp.Manager.{segment_fuel}
use analyse_tcp.Conn.{Connection, RelativeSeqType, relative_sequence_number}
use analyse_tcp.Dump.Table.{ConnectionMapKey, lookup, store}
use analyse_tcp.Dump.Handlers.{Dump, empty_segment}

-- A line: the addresses and ports of the connection, `none` if std::stoul finds no number in a port; the time in
-- the kernel in seconds and nanoseconds; the size; and the two sequence numbers that are read.
pub record SojournLine : Type 0 where
  pub key : Option ConnectionMapKey
  pub k_sec : ℕ
  pub k_nsec : ℕ
  pub size : ℕ
  pub seq : ℕ
  pub seq2 : ℕ

-- The segment of a line.
unfoldable pub sojourn_segment : SojournLine → Connection → Result DataSeg
sojourn_segment line c = do
  let seq_absolute = max (line.seq % u32_mod) (line.seq2 % u32_mod)
  let payload_size = line.size % u16_mod
  seq ← relative_sequence_number seq_absolute RelativeSeqType.relseq_soj_seq c
  ok (record empty_segment {
    seq = seq;
    end_seq = add64 seq payload_size;
    seq_absolute = seq_absolute;
    payload_size = payload_size;
    tstamp_pcap = record { sec = pos line.k_sec; usec = pos (line.k_nsec / 1000) };
  })

-- Its insertion, and what insertByteRange returns.
unfoldable pub sojourn_connection : SojournLine → Connection → Result (Connection × Bool)
sojourn_connection line c = do
  seg ← sojourn_segment line c
  r ←
      insert_byte_range (segment_fuel seg.seq seg.end_seq) InsertType.insert_sojourn seg
        c.rm.first_seq c.rm.last_seq 0 seg.seq seg.end_seq c.rm.ranges
  ok (record c { rm = record c.rm { ranges = r.0 } }, r.1)

-- A line, and whether the loop goes on. Lines of no connection are skipped.
unfoldable pub sojourn_line : SojournLine → Dump → Result (Dump × Bool)
sojourn_line line d = elim line.key as (λ _. Result (Dump × Bool)) [
  | none ↦ ok (d, true)
  | some key ↦ elim (lookup key d.conns) as (λ _. Result (Dump × Bool)) [
    | none ↦ ok (d, true)
    | some c ↦ do
      r ← sojourn_connection line c
      ok (record d { conns = store key r.0 d.conns }, r.1)
  ]
]

-- `calculateSojournTime`
unfoldable pub calculate_sojourn_time : List SojournLine → Dump → Result Dump
calculate_sojourn_time [] d = ok d
calculate_sojourn_time (line ∷ lines) d = do
  r ← sojourn_line line d
  let rest = calculate_sojourn_time lines r.0
  if r.1 then rest else ok r.0
