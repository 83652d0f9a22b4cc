-- ===== src/Seq.antt =====
-- Sequence numbers: `before` and `after_or_equal` of util.h, `getRelativeSequenceNumber` of
-- Connection.cc and `RangeManager::absolute_seq`.
pub mod Relative
mod Tests
use analyse_tcp.Prelude.{ℕ, ◌*◌, ◌/◌, ◌%◌, Bool, ltb, leb, if◌then◌else◌, Result, ok, err, Fault}
use analyse_tcp.Words.{u32_mod, sub32, add64, sub64, add32, u64_mod, invalid_seq}

-- (signed int) w < 0, for a 32-bit word w.
abbrev pub is_negative32 : ℕ → Bool
is_negative32 w = leb 2147483648 w

unfoldable pub before : ℕ → ℕ → Bool
before seq1 seq2 = is_negative32 (sub32 seq1 seq2)

unfoldable pub after_or_equal : ℕ → ℕ → Bool
after_or_equal seq1 seq2 = ltb (sub32 seq2 seq1) 2147483648

-- The part of `getRelativeSequenceNumber` behind the choice of wrap_index: the division by 2^32,
-- the sum that gives the relative number, and the check of its size.
unfoldable pub relative_of_wrap_index : ℕ → ℕ → ℕ → Result ℕ
relative_of_wrap_index seq first_seq wrap_index =
    let seq_relative = sub64 (add64 seq (wrap_index / u32_mod * u32_mod)) first_seq in
    if ltb 9999999999 seq_relative then err Fault.assertion else ok seq_relative

unfoldable pub get_relative_sequence_number : ℕ → ℕ → ℕ → ℕ → Result ℕ
get_relative_sequence_number seq first_seq largest_seq largest_seq_absolute =
    let wrap_index = add64 (add64 first_seq largest_seq) 1 in
    if ltb seq largest_seq_absolute
    then (if before seq largest_seq_absolute
        then (if before seq first_seq
            then ok invalid_seq
            else relative_of_wrap_index seq first_seq
                (sub64 wrap_index (sub32 largest_seq_absolute seq)))
        else relative_of_wrap_index seq first_seq
            (add64 wrap_index (add32 (sub32 0 largest_seq_absolute) seq)))
    else (if after_or_equal largest_seq_absolute seq
        then relative_of_wrap_index seq first_seq
            (add64 wrap_index (sub32 seq largest_seq_absolute))
        else relative_of_wrap_index seq first_seq
            (sub64 wrap_index (add32 (sub32 0 seq) largest_seq_absolute)))

unfoldable pub absolute_seq : ℕ → ℕ → ℕ
absolute_seq first_seq seq =
    let wrap_index = add64 first_seq seq / u32_mod in
    sub64 (add64 seq first_seq) ((wrap_index * u32_mod) % u64_mod) % u32_mod
