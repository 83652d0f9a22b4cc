-- ===== src/Conn/Classes.antt =====
-- How `Connection::registerSent` tells new data from bundles and retransmissions.
use analyse_tcp.Prelude.{◌+◌, ◌-◌, ◌<◌, ◌≡◌, ◌⊎◌, false, ltb, leb, ◌&&◌, if◌then◌else◌, arith, max}
use analyse_tcp.Words.{add64}
use analyse_tcp.Range.{DataSeg}
use analyse_tcp.Conn.{Connection, register_payload}

-- The last start is below the last end once data was sent; both are below half the range of a word.
abbrev pub Marked : Connection → Type 0
Marked c =
    ((c.last_largest_start_seq < c.last_largest_end_seq) ⊎ (c.last_largest_start_seq ≡ 0))
    × (c.last_largest_end_seq < 9223372036854775808)

-- A segment with data as it is read from a packet: not marked yet.
pub record IsFresh (seg : DataSeg) : Type 0 where
  pub has_data : 0 < seg.payload_size
  pub spans : seg.end_seq ≡ seg.seq + seg.payload_size
  pub word : seg.end_seq < 9223372036854775808
  pub first : seg.retrans ≡ false
  pub alone : seg.is_rdb ≡ false

-- A segment with data counts by where it lies: as a retransmission exactly if it ends no further than
-- the largest end seen, as a bundle exactly if it starts before that end and ends behind it, and then
-- the old part of it ends there. The new bytes are those behind the largest end or, in a gap, the whole
-- segment; the bundled ones are those before it; a retransmission counts all its bytes as such. The largest end
-- moves to the end of the segment if that is larger, the last start to its start, and
-- the last start stays below the last end.
pub register_payload-classes :
    (seg : DataSeg) (c : Connection)
    → IsFresh seg
    → Marked c
    → let r = register_payload seg c in
      let end = c.last_largest_end_seq in
      let bundled = ltb seg.seq end && ltb end seg.end_seq in
      (r.1.retrans ≡ leb seg.end_seq end)
      × (r.1.is_rdb ≡ bundled)
      × (r.1.rdb_end_seq ≡ (if bundled then end else seg.rdb_end_seq))
      × (r.0.tot_new_data_sent ≡ (
          if leb seg.end_seq end
          then c.tot_new_data_sent
          else add64 c.tot_new_data_sent (seg.end_seq - max seg.seq end)))
      × (r.0.tot_rdb_bytes_sent
          ≡ (if bundled then add64 c.tot_rdb_bytes_sent (end - seg.seq) else c.tot_rdb_bytes_sent))
      × (r.0.tot_retrans_bytes_sent ≡ (
          if leb seg.end_seq end
          then add64 c.tot_retrans_bytes_sent (seg.end_seq - seg.seq)
          else c.tot_retrans_bytes_sent))
      × (r.0.last_largest_end_seq ≡ max end seg.end_seq)
      × (r.0.last_largest_start_seq ≡ seg.seq)
      × Marked r.0
unfolding register_payload
register_payload-classes seg c f m = ground arith
