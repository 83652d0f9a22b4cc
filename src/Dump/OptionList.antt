-- ===== src/Dump/OptionList.antt =====
-- The options of a segment, as RFC 793, 7323 and 2018 lay them out, and what they say.
use analyse_tcp.Prelude.{
  ℕ, ◌+◌, ◌/◌, ◌%◌, ◌<◌, ◌≢◌, true, if◌then◌else◌, List, [], ◌∷◌, ◌++◌, length, Result, ok, ◌>>=◌,
}
use analyse_tcp.Words.{u32_mod}
use analyse_tcp.Range.{DataSeg}
use analyse_tcp.Conn.{Connection, RelativeSeqType}
use analyse_tcp.Dump.Options.{add_sack, is_none}

-- An option: no operation, the two time stamps, the edges of one or two SACK blocks, or any other kind
-- with its bytes.
pub data TcpOption : Type 0 where
  nop : TcpOption
  timestamps : ℕ → ℕ → TcpOption
  one_sack : ℕ → ℕ → TcpOption
  two_sacks : ℕ → ℕ → ℕ → ℕ → TcpOption
  other : ℕ → List ℕ → TcpOption

-- A 32-bit word in network order.
abbrev pub word_bytes : ℕ → List ℕ → List ℕ
word_bytes w rest = w / 16777216 ∷ (w / 65536) % 256 ∷ (w / 256) % 256 ∷ w % 256 ∷ rest

-- The bytes of an option, and those behind it.
abbrev pub encode : TcpOption → List ℕ → List ℕ
encode nop rest = 1 ∷ rest
encode (timestamps v e) rest = 8 ∷ 10 ∷ word_bytes v (word_bytes e rest)
encode (one_sack l r) rest = 5 ∷ 10 ∷ word_bytes l (word_bytes r rest)
encode (two_sacks l r k s) rest =
    5 ∷ 18 ∷ word_bytes l (word_bytes r (word_bytes k (word_bytes s rest)))
encode (other kind body) rest = kind ∷ (length body + 2) ∷ (body ++ rest)

abbrev pub size_of : TcpOption → ℕ
size_of nop = 1
size_of (timestamps v e) = 10
size_of (one_sack l r) = 10
size_of (two_sacks l r k s) = 18
size_of (other kind body) = length body + 2

abbrev pub kind_of : TcpOption → ℕ
kind_of nop = 1
kind_of (timestamps v e) = 8
kind_of (one_sack l r) = 5
kind_of (two_sacks l r k s) = 5
kind_of (other kind body) = kind

-- Words of 32 bits, and a kind that is none of the others.
abbrev pub IsOption : TcpOption → Type 0
IsOption nop = Unit {0}
IsOption (timestamps v e) = (v < u32_mod) × (e < u32_mod)
IsOption (one_sack l r) = (l < u32_mod) × (r < u32_mod)
IsOption (two_sacks l r k s) = (l < u32_mod) × (r < u32_mod) × (k < u32_mod) × (s < u32_mod)
IsOption (other kind body) = (kind ≢ 0) × (kind ≢ 1) × (kind ≢ 5) × (kind ≢ 8)

-- What an option says of the segment. SACK blocks are read from acks only.
abbrev pub apply_option : Connection → RelativeSeqType → TcpOption → DataSeg → Result DataSeg
apply_option conn type nop seg = ok seg
apply_option conn type (timestamps v e) seg =
    ok (record seg { tstamp_tcp = v; tstamp_tcp_echo = e })
apply_option conn type (one_sack l r) seg =
    if is_none type then ok seg else add_sack conn l r (record seg { sacks = true })
apply_option conn type (two_sacks l r k s) seg =
    if is_none type
    then ok seg
    else (add_sack conn l r (record seg { sacks = true }) >>= add_sack conn k s)
apply_option conn type (other kind body) seg = ok seg

-- The bytes of options in a row, and those behind them.
abbrev pub encode_all : List TcpOption → List ℕ → List ℕ
encode_all [] rest = rest
encode_all (o ∷ os) rest = encode o (encode_all os rest)

abbrev pub size_all : List TcpOption → ℕ
size_all [] = 0
size_all (o ∷ os) = size_of o + size_all os

abbrev pub AreOptions : List TcpOption → Type 0
AreOptions [] = Unit {0}
AreOptions (o ∷ os) = IsOption o × AreOptions os

-- What the options say, one after the other.
abbrev pub apply_all : Connection → RelativeSeqType → List TcpOption → DataSeg → Result DataSeg
apply_all conn type [] seg = ok seg
apply_all conn type (o ∷ os) seg = apply_option conn type o seg >>= apply_all conn type os
