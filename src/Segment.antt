-- ===== src/Segment.antt =====
-- `DataSeg` of common.h, a segment as the analysis sees it, with the flags of its header and the
-- enumerations `sent_type` of common.h and `received_type` of RangeManager.h.
use analyse_tcp.Prelude.{ℕ, Bool, true, false, not, ◌==◌, List}
use analyse_tcp.Time.{Timeval}
use Prim.Native.Nat.{bit_and}

pub data SentType : Type 0 where
  st_none st_pkt st_rtr st_pure_ack st_rst : SentType

pub data ReceivedType : Type 0 where
  def received_data rdb retr : ReceivedType

abbrev pub is_pkt : SentType → Bool
is_pkt SentType.st_pkt = true
is_pkt _ = false

abbrev pub is_rtr : SentType → Bool
is_rtr SentType.st_rtr = true
is_rtr _ = false

abbrev pub is_pure_ack : SentType → Bool
is_pure_ack SentType.st_pure_ack = true
is_pure_ack _ = false

abbrev pub is_rst : SentType → Bool
is_rst SentType.st_rst = true
is_rst _ = false

pub record DataSeg : Type 0 where
  pub seq : ℕ
  pub end_seq : ℕ
  pub rdb_end_seq : ℕ
  pub seq_absolute : ℕ
  pub ack : ℕ
  pub window : ℕ
  pub payload_size : ℕ
  pub retrans : Bool
  pub is_rdb : Bool
  pub sacks : Bool
  pub in_sequence : Bool
  pub tstamp_pcap : Timeval
  pub tstamp_tcp : ℕ
  pub tstamp_tcp_echo : ℕ
  pub tcp_sacks : List (ℕ × ℕ)
  pub flags : ℕ

abbrev pub th_fin : ℕ
th_fin = 0x01

abbrev pub th_syn : ℕ
th_syn = 0x02

abbrev pub th_rst : ℕ
th_rst = 0x04

-- `flags & mask`, as a condition.
unfoldable pub has_flag : ℕ → ℕ → Bool
has_flag flags mask = not (bit_and flags mask == 0)

-- A bool or a test added to a number.
abbrev pub to_ℕ : Bool → ℕ
to_ℕ true = 1
to_ℕ false = 0
