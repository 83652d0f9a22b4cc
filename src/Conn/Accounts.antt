-- ===== src/Conn/Accounts.antt =====
-- The accounts of `Connection::registerSent`: every payload byte that is sent is counted once, as new
-- data, as bundled data or as retransmitted data.
use analyse_tcp.Prelude.{
  ◌+◌, ◌%◌, ◌<◌, ◌≡◌, ◌⊎◌, inl, inr, refl, Bool, true, false, not, ltb, ◌==◌, ◌&&◌, if◌then◌else◌,
  arith, Bool-cases, Option, none, some,
}
use analyse_tcp.Words.{u64_mod, add64}
use analyse_tcp.Range.{DataSeg, has_flag, th_syn}
use analyse_tcp.Conn.{
  Connection, SendData, distance, check_expected, register_payload, register_sent,
}

-- The bytes sent are the new, the bundled and the retransmitted ones, as 64-bit counters.
abbrev pub Balanced : Connection → Type 0
Balanced c =
    (c.tot_new_data_sent + c.tot_rdb_bytes_sent + c.tot_retrans_bytes_sent) % u64_mod
    ≡ c.tot_bytes_sent % u64_mod

-- The segment ends behind its payload.
abbrev pub Spans : DataSeg → Type 0
Spans seg = (seg.end_seq ≡ add64 seg.seq seg.payload_size) × (seg.seq < u64_mod)

register_payload-Balanced :
    (seg : DataSeg) (c : Connection)
    → Spans seg ⊎ (seg.end_seq ≡ 0)
    → c.last_largest_end_seq < u64_mod
    → Balanced c
    → Balanced (register_payload seg c).0
unfolding register_payload
register_payload-Balanced seg c s w b = ground arith

-- The accounts of a connection, and a largest end that is a word.
pub record Sound (c : Connection) : Type 0 where
  pub balanced : Balanced c
  pub word : c.last_largest_end_seq < u64_mod

register_payload-Sound :
    (seg : DataSeg) (c : Connection)
    → Spans seg ⊎ (seg.end_seq ≡ 0)
    → Sound c
    → Sound (register_payload seg c).0
unfolding register_payload
register_payload-Sound seg c s v = record {
  balanced = register_payload-Balanced seg c s v.word v.balanced;
  word = ground (arith, v.word);
}

-- The segment that is counted spans its payload too, or was moved to the start of a new stream.
abbrev Checked : Option (Connection × DataSeg) → Type 0
Checked none = Unit {0}
Checked (some (c, seg)) = Sound c × (Spans seg ⊎ (seg.end_seq ≡ 0))

check_expected-Checked :
    (seg : DataSeg) (c : Connection) → Spans seg → Sound c → Checked (check_expected seg c)
unfolding check_expected
check_expected-Checked seg c s v =
    elim (Bool-cases
      (ltb c.last_largest_end_seq seg.end_seq && not (add64 c.last_largest_end_seq 1 == seg.seq))) [
        | inr h ↦ rw h (v, inl s)
        | inl h ↦ rw h (elim (Bool-cases c.closed) [
          | inl k ↦ simp (k) tt
          | inr k ↦ simp (k) (elim (Bool-cases (has_flag seg.flags th_syn)) [
            | inr f ↦ rw f (v, inl s)
            | inl f ↦ rw f (elim (Bool-cases (ltb 10 (distance seg.seq_absolute c.rm.first_seq))) [
              | inl g ↦ rw g (record { balanced = v.balanced; word = v.word }, inl s)
              | inr g ↦ rw g (record { balanced = v.balanced; word = v.word }, inr refl)
            ])
          ])
        ])
      ]

-- `registerSent` keeps the accounts on every segment that spans its payload, whether it is new, bundled
-- with old data, a retransmission, without payload or ignored: the bytes of new data, of bundled
-- old data and of retransmissions add up to the bytes sent, as counters of 64 bits.
pub register_sent-Sound :
    (sd : SendData) (c : Connection) → Spans sd.segment → Sound c → Sound (register_sent sd c).0
unfolding register_sent
register_sent-Sound sd c s v =
    let counted : Connection = record c {
      tot_packet_size = add64 c.tot_packet_size sd.total_size;
      nr_packets_sent = add64 c.nr_packets_sent 1;
    } in
    go counted (check_expected sd.segment counted)
      (check_expected-Checked sd.segment counted s
        (record { balanced = v.balanced; word = v.word }))
      (record { balanced = v.balanced; word = v.word })
  where
    go :
        (k : Connection) (r : Option (Connection × DataSeg))
        → Checked r
        → Sound k
        → Sound (
            (elim r as (λ _. Connection × DataSeg × Bool) [
              | none ↦ (record k { ignored_count = k.ignored_count + 1 }, sd.segment, false)
              | some p ↦
                  if p.1.payload_size == 0
                  then (p.0, p.1, true)
                  else (let r = register_payload p.1 p.0 in (r.0, r.1, true))
            ]).0)
    go k none h w = record { balanced = w.balanced; word = w.word }
    go k (some (c', seg)) (w, spans) _ = elim (Bool-cases (seg.payload_size == 0)) [
      | inl e ↦ rw e w
      | inr e ↦ rw e (register_payload-Sound seg c' spans w)
    ]
