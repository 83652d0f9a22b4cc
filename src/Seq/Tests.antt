-- ===== src/Seq/Tests.antt =====
-- Sequence numbers at concrete inputs; the first are the calls of tests/TestAnalyseTCP.h.
use analyse_tcp.Prelude.{◌+◌, ◌≡◌, refl, inl, ok, err, Fault, arith}
use analyse_tcp.Words.{u32_mod, invalid_seq}
use analyse_tcp.Seq.{
  before, after_or_equal, relative_of_wrap_index, get_relative_sequence_number, absolute_seq,
}
use analyse_tcp.Seq.Relative.{relative-absolute_seq, relative_of_last_word, relative_past_half}

-- The number has wrapped, and the packet is an older one that had not.
reordered_over_wrap : get_relative_sequence_number 4294962347 4286361190 8609844 3739 ≡ ok 8601157
unfolding get_relative_sequence_number relative_of_wrap_index before after_or_equal
reordered_over_wrap = refl

wrapped : get_relative_sequence_number 19 4294967000 10 4294967010 ≡ ok 315
unfolding get_relative_sequence_number relative_of_wrap_index before after_or_equal
wrapped = refl

-- A number so far ahead that the relative number passes the limit.
too_large : get_relative_sequence_number 4294967295 0 9999999000 1410064408 ≡ err Fault.assertion
unfolding get_relative_sequence_number relative_of_wrap_index before after_or_equal
too_large = refl

relative-absolute_seq_example :
    get_relative_sequence_number
      (absolute_seq 4286361190 8601157)
      4286361190
      8609844
      (absolute_seq 4286361190 8609844)
    ≡ ok 8601157
unfolding absolute_seq
relative-absolute_seq_example =
    relative-absolute_seq 4286361190 8609844 8601157 (omega arith) (omega arith) (omega arith)
      (omega arith) (omega arith) (inl (omega arith)) (λ e. omega arith)

relative_of_last_word_example :
    get_relative_sequence_number
      (absolute_seq 4294967000 295)
      4294967000
      200
      (absolute_seq 4294967000 200)
    ≡ ok (295 + u32_mod)
unfolding absolute_seq
relative_of_last_word_example =
    relative_of_last_word 4294967000 200 295 (omega arith) (omega arith) (omega arith) (omega arith)
      (omega arith) refl

relative_past_half_example :
    get_relative_sequence_number
      (absolute_seq 1000 2900000000)
      1000
      3000000000
      (absolute_seq 1000 3000000000)
    ≡ ok invalid_seq
unfolding absolute_seq
relative_past_half_example =
    relative_past_half 1000 3000000000 2900000000 (omega arith) (omega arith) (omega arith)
      (omega arith) (omega arith) (omega arith)
