-- ===== src/Words.antt =====
-- Machine words: the fixed-width unsigned arithmetic that common.h's `seq32_t`, `seq64_t` and
-- `ullint_t` and the counters of ByteRange.h have. A word is a number below its modulus.
use analyse_tcp.Prelude.{ℕ, ◌+◌, ◌-◌, ◌%◌}

abbrev pub u8_mod : ℕ
u8_mod = 256

abbrev pub u16_mod : ℕ
u16_mod = 65536

abbrev pub u32_mod : ℕ
u32_mod = 4294967296

abbrev pub u64_mod : ℕ
u64_mod = 18446744073709551616

-- a + b and a - b of each width. `-` on ℕ is truncated, so the modulus is added first; b is below it.
abbrev pub add8 : ℕ → ℕ → ℕ
add8 a b = (a + b) % u8_mod

abbrev pub add32 : ℕ → ℕ → ℕ
add32 a b = (a + b) % u32_mod

abbrev pub sub32 : ℕ → ℕ → ℕ
sub32 a b = (a + u32_mod - b) % u32_mod

abbrev pub add64 : ℕ → ℕ → ℕ
add64 a b = (a + b) % u64_mod

abbrev pub sub64 : ℕ → ℕ → ℕ
sub64 a b = (a + u64_mod - b) % u64_mod

-- std::numeric_limits<ulong>::max(), which marks a sequence number that is not valid.
abbrev pub invalid_seq : ℕ
invalid_seq = 18446744073709551615
