-- ===== src/Dump/Options.antt =====
-- `Dump::parseTCPOptions` of Dump.cc, on the bytes of the packet from the options on.
use analyse_tcp.Prelude.{
  ℕ, zero, suc, ◌+◌, ◌-◌, ◌*◌, ◌/◌, ◌%◌, Bool, true, false, not, ◌&&◌, ◌||◌, ltb, ◌==◌,
  if◌then◌else◌, List, [], ◌∷◌, ◌++◌, get_elem?, Result, ok, err, Fault, or_out_of_range, ◌>>=◌,
}
use analyse_tcp.Words.{add32, u32_mod}
use analyse_tcp.Range.{DataSeg}
use analyse_tcp.Conn.{Connection, RelativeSeqType, relative_sequence_number}

-- A read behind the bytes of the packet is outside its buffer.
abbrev pub read8 : List ℕ → ℕ → Result ℕ
read8 opts i = or_out_of_range (get_elem? opts i)

-- `ntohl` of the four bytes from `i` on.
unfoldable pub read32 : List ℕ → ℕ → Result ℕ
read32 opts i = do
  a ← read8 opts i
  b ← read8 opts (i + 1)
  c ← read8 opts (i + 2)
  d ← read8 opts (i + 3)
  ok (a * 16777216 + b * 65536 + c * 256 + d)

abbrev pub is_none : RelativeSeqType → Bool
is_none RelativeSeqType.relseq_none = true
is_none _ = false

-- The time stamps of an option of kind 8 at `offset`.
unfoldable pub read_timestamps : List ℕ → ℕ → DataSeg → Result DataSeg
read_timestamps opts offset seg = do
  stamp ← read32 opts (offset + 2)
  echo ← read32 opts (offset + 6)
  ok (record seg { tstamp_tcp = stamp; tstamp_tcp_echo = echo })

-- A block of acknowledged data, of the edges read. The right edge is held in 32 bits on its way.
unfoldable pub add_sack : Connection → ℕ → ℕ → DataSeg → Result DataSeg
add_sack conn left_in right_in seg = do
  left ← relative_sequence_number left_in RelativeSeqType.relseq_send_ack conn
  right ← relative_sequence_number right_in RelativeSeqType.relseq_send_ack conn
  ok (record seg { tcp_sacks = seg.tcp_sacks ++ (left, right % u32_mod) ∷ [] })

-- The loop over the blocks from the `i`-th on, `n` of them, of an option of kind 5 at `offset`.
unfoldable pub read_sacks : List ℕ → Connection → ℕ → ℕ → ℕ → ℕ → DataSeg → Result DataSeg
read_sacks opts conn offset blocks zero i seg = ok seg
read_sacks opts conn offset blocks (suc n) i seg = do
  left_in ← read32 opts (offset + 2 + 4 * blocks * i)
  right_in ← read32 opts (offset + 6 + 4 * blocks * i)
  seg' ← add_sack conn left_in right_in seg
  read_sacks opts conn offset blocks n (i + 1) seg'

-- What the option of this kind and size at `offset` changes.
unfoldable pub read_option :
    List ℕ → Connection → RelativeSeqType → ℕ → ℕ → ℕ → DataSeg → Result DataSeg
read_option opts conn type offset kind size seg =
    if kind == 8
    then read_timestamps opts offset seg
    else if kind == 5 && not (is_none type)
    then (let blocks = (size - 2) / 8 in
        read_sacks opts conn offset blocks blocks 0 (record seg { sacks = true }))
    else ok seg

-- A round of the loop: the options end, or go on at an offset.
pub data Round : Type 0 where
  stop : DataSeg → Round
  onward : ℕ → DataSeg → Round

-- The round at `offset`. Each tests the first byte of all the options.
unfoldable pub options_round :
    List ℕ → ℕ → Connection → RelativeSeqType → ℕ → DataSeg → Result Round
unfolding read_option
options_round opts option_length conn type offset seg = do
  head ← read8 opts 0
  if head == 0 || not (ltb offset option_length) then ok (stop seg) else (do
    kind ← read8 opts offset
    if kind == 0 then ok (stop seg) else if kind == 1 then ok (onward (add32 offset 1) seg) else (do
      size ← read8 opts (offset + 1)
      seg' ← read_option opts conn type offset kind size seg
      ok (onward (add32 offset size) seg')))

-- The loop over the options from `offset` on.
unfoldable pub options_loop :
    ℕ → List ℕ → ℕ → Connection → RelativeSeqType → ℕ → DataSeg → Result DataSeg
options_loop zero opts option_length conn type offset seg = err Fault.out_of_fuel
options_loop (suc fuel) opts option_length conn type offset seg = do
  r ← options_round opts option_length conn type offset seg
  elim r as (λ _. Result DataSeg) [
    | stop seg' ↦ ok seg'
    | onward at seg' ↦ options_loop fuel opts option_length conn type at seg'
  ]

-- `parseTCPOptions`, with fuel for options of one byte and more.
unfoldable pub parse_tcp_options :
    List ℕ → ℕ → Connection → RelativeSeqType → DataSeg → Result DataSeg
parse_tcp_options opts option_length conn type seg =
    options_loop (suc option_length) opts option_length conn type 0 seg
