-- ===== src/Dump/Traces.antt =====
-- The data packets of one connection in a trace, from their headers to the ranges of the connection.
use analyse_tcp.Prelude.{
  ℕ, ◌+◌, ◌<◌, ◌≡◌, arith, refl, ap, sym, subst, ◌∙◌, max, Option, none, some, List, [], ◌∷◌,
  Result, ok, err, Fault, ◌>>=◌,
}
use analyse_tcp.Words.{u32_mod}
use analyse_tcp.Seq.{absolute_seq}
use analyse_tcp.RangeMap.Cover.{covers}
use analyse_tcp.RangeMap.Pieces.{top}
use analyse_tcp.Conn.{Connection, new_connection}
use analyse_tcp.Conn.InStep.{InStep}
use analyse_tcp.Conn.Numbers.{Numbered}
use analyse_tcp.Dump.Table.{ConnectionMapKey, ConnectionTable, lookup, store, get_conn}
use analyse_tcp.Dump.Entries.{lookup-store}
use analyse_tcp.Dump.Handlers.{
  Dump, Packet, payload_of, sent_key, settle, count_sent, sent_connection, process_sent,
}
use analyse_tcp.Dump.Sending.{Carries, SentUpTo, sent_connection-SentUpTo}

-- The connection of `key` is in the table, its ranges hold exactly the bytes from `b` up to `last`, and its
-- numbers agree.
pub record Follows (key : ConnectionMapKey) (b first last : ℕ) (d : Dump) : Type 0 where
  pub connection : Connection
  pub found : lookup key d.conns ≡ some connection
  pub holds : InStep b connection
  pub numbers : Numbered connection
  pub first_seq : connection.rm.first_seq ≡ first
  pub last_seq : connection.rm.last_seq ≡ last

abbrev pub FollowsUpTo : ConnectionMapKey → ℕ → ℕ → ℕ → Result Dump → Type 0
FollowsUpTo key b first last (ok d) = Follows key b first last d
FollowsUpTo key b first last (err f) = ⊥

-- Each packet carries the bytes from its relative number on, in a stream that starts at `b` and
-- has come to `last`.
abbrev pub AllCarry : ConnectionMapKey → ℕ → ℕ → ℕ → ℕ → List (ℕ × Packet) → Type 0
AllCarry key b link first last [] = Unit {0}
AllCarry key b link first last ((position, p) ∷ ps) =
    (sent_key p ≡ key)
    × Carries b link first last position p
    × AllCarry key b link first (max last (position + payload_of link p)) ps

abbrev pub trace_end : ℕ → ℕ → List (ℕ × Packet) → ℕ
trace_end link last [] = last
trace_end link last ((position, p) ∷ ps) =
    trace_end link (max last (position + payload_of link p)) ps

-- `processSent` on each packet.
unfoldable pub process_all_sent : ℕ → List (ℕ × Packet) → Dump → Result Dump
process_all_sent link [] d = ok d
process_all_sent link ((position, p) ∷ ps) d = process_sent link p d >>= process_all_sent link ps

get_conn_found :
    (key : ConnectionMapKey) (seq : ℕ) (c : Connection) (t : ConnectionTable)
    → lookup key t ≡ some c
    → get_conn key (some seq) t ≡ (t, some c)
unfolding get_conn
get_conn_found key seq c t e = rw (get_conn, e) refl

-- What processSent does with what getConn returns.
abbrev sent_found : ℕ → Packet → Dump → ConnectionTable × Option Connection → Result Dump
sent_found link p d found = elim found.1 as (λ _. Result Dump) [
  | none ↦ err Fault.out_of_range
  | some c ↦ sent_connection link p c >>= λ r.
      ok (settle (sent_key p) (count_sent link p) r (record d { conns = found.0 }))
]

process_sent_found :
    (link : ℕ) (p : Packet) (c : Connection) (d : Dump)
    → lookup (sent_key p) d.conns ≡ some c
    → process_sent link p d
      ≡ (sent_connection link p c >>= λ r. ok (settle (sent_key p) (count_sent link p) r d))
unfolding process_sent
process_sent_found link p c d e =
    ap (sent_found link p d) (get_conn_found (sent_key p) p.th_seq c d.conns e)

process_sent-FollowsUpTo :
    (b link first last position : ℕ) (p : Packet) (d : Dump)
    → Follows (sent_key p) b first last d
    → Carries b link first last position p
    → FollowsUpTo
        (sent_key p)
        b
        first
        (max last (position + payload_of link p))
        (process_sent link p d)
unfolding count_sent
process_sent-FollowsUpTo b link first last position p d f a =
    let c = f.connection in
    let sent =
      sent_connection-SentUpTo b link position p c f.numbers f.holds
        (rw (f.first_seq, f.last_seq) a) in
    rw (process_sent_found link p c d f.found)
      (settled (sent_connection link p c) (rw (sym f.first_seq, sym f.last_seq) sent))
  where
    settled :
        (r : Result (Option Connection))
        → SentUpTo b first (max last (position + payload_of link p)) r
        → FollowsUpTo
            (sent_key p)
            b
            first
            (max last (position + payload_of link p))
            (r >>= λ o. ok (settle (sent_key p) (count_sent link p) o d))
    settled (err f) u = u
    settled (ok none) u = absurd u
    settled (ok (some c)) (i, n, at, end) = record {
      connection = c;
      found = lookup-store (sent_key p) c d.conns;
      holds = i;
      numbers = n;
      first_seq = at;
      last_seq = end;
    }

-- The data packets of a connection that is in the table, open, with ranges that hold the stream
-- and numbers that agree, in a trace whose stream has no gaps, with retransmissions and bundles
-- among them; the sequence numbers may wrap around at 2^32. Each packet has 1 to 1501 bytes of
-- data, no SYN, at least one option, and at most 40 bytes of options that are laid out well; its
-- first byte is at most 2^31 behind the end of the stream (with a relative number whose
-- remainder by 2^32 is below 2^31, if it is behind it) and has an absolute number other than
-- 2^32 - 1, and the relative numbers stay below 10^10. Then processSent returns on each of them,
-- and at the end the ranges of the connection hold exactly the bytes up to the largest end of a
-- packet, and its numbers agree.
pub process_all_sent-Follows :
    (key : ConnectionMapKey) (b link first last : ℕ) (ps : List (ℕ × Packet)) (d : Dump)
    → Follows key b first last d
    → AllCarry key b link first last ps
    → FollowsUpTo key b first (trace_end link last ps) (process_all_sent link ps d)
unfolding process_all_sent
process_all_sent-Follows key b link first last [] d f carry = f
process_all_sent-Follows key b link first last ((position, p) ∷ ps) d f (same, a, carry) =
    then_all (process_sent link p d)
      (subst
        (λ k.
          Follows k b first last d
          → FollowsUpTo k b first (max last (position + payload_of link p)) (process_sent link p d))
        same (λ g. process_sent-FollowsUpTo b link first last position p d g a) f)
      (λ d' g.
        process_all_sent-Follows key b link first (max last (position + payload_of link p)) ps d' g
          carry)
  where
    then_all :
        (r : Result Dump)
        → FollowsUpTo key b first (max last (position + payload_of link p)) r
        → ((d' : Dump)
            → Follows key b first (max last (position + payload_of link p)) d'
            → FollowsUpTo key b first
                (trace_end link last ((position, p) ∷ ps))
                (process_all_sent link ps d'))
        → FollowsUpTo key b first
            (trace_end link last ((position, p) ∷ ps))
            (r >>= process_all_sent link ps)
    then_all (err f) u next = u
    then_all (ok d') g next = next d' g

-- A new connection has nothing yet.
pub new_connection-Follows :
    (key : ConnectionMapKey) (first : ℕ) (d : Dump)
    → first < u32_mod
    → lookup key d.conns ≡ some (new_connection first)
    → Follows key 0 first 0 d
unfolding absolute_seq covers top
new_connection-Follows key first d word e = record {
  connection = new_connection first;
  found = e;
  holds = record {
    holds = record {
      in_order = tt;
      exact = λ x. ground arith;
      ends = omega arith;
      starts = omega arith;
    };
    same_end = refl;
    not_closed = refl;
  };
  numbers = record { first_word = word; newest = omega arith; in_range = omega arith };
  first_seq = refl;
  last_seq = refl;
}

get_conn_new :
    (key : ConnectionMapKey) (seq : ℕ) (t : ConnectionTable)
    → lookup key t ≡ none
    → get_conn key (some seq) t ≡ (store key (new_connection seq) t, some (new_connection seq))
unfolding get_conn
get_conn_new key seq t e = rw (get_conn, e) refl

-- The first packet of a connection is handled as one whose connection is in the table.
process_sent_new :
    (link : ℕ) (p : Packet) (d : Dump)
    → lookup (sent_key p) d.conns ≡ none
    → process_sent link p d
      ≡ process_sent link p
          (record d { conns = store (sent_key p) (new_connection p.th_seq) d.conns })
unfolding process_sent
process_sent_new link p d e =
    let c = new_connection p.th_seq in
    ap (sent_found link p d) (
      get_conn_new (sent_key p) p.th_seq d.conns e
      ∙ sym (
          get_conn_found (sent_key p) p.th_seq c (store (sent_key p) c d.conns)
            (lookup-store (sent_key p) c d.conns)))

-- A connection that is not in the table and whose first packet in the trace is one of data, in a
-- trace whose sequence numbers may wrap around at 2^32, with retransmissions and bundles among
-- them: with no gaps in the stream, processSent creates the connection and returns on each
-- packet, and at the end the ranges of the connection hold exactly the bytes from the first one
-- up to the largest end of a packet. Each packet has 1 to 1501 bytes of data, no SYN, at least
-- one option, and at most 40 bytes of options that are laid out well; its first byte is at most
-- 2^31 behind the end of the stream (with a relative number whose remainder by 2^32 is below
-- 2^31, if it is behind it) and has an absolute number other than 2^32 - 1, and the relative
-- numbers stay below 10^10.
pub process_all_sent_new :
    (link : ℕ) (p : Packet) (ps : List (ℕ × Packet)) (d : Dump)
    → p.th_seq < u32_mod
    → lookup (sent_key p) d.conns ≡ none
    → AllCarry (sent_key p) 0 link p.th_seq 0 ((0, p) ∷ ps)
    → FollowsUpTo
        (sent_key p)
        0
        p.th_seq
        (trace_end link 0 ((0, p) ∷ ps))
        (process_all_sent link ((0, p) ∷ ps) d)
unfolding process_all_sent
process_all_sent_new link p ps d word e carry =
    let c = new_connection p.th_seq in
    let d' : Dump = record d { conns = store (sent_key p) c d.conns } in
    rw (process_sent_new link p d e) (
      process_all_sent-Follows (sent_key p) 0 link p.th_seq 0 ((0, p) ∷ ps) d'
        (new_connection-Follows (sent_key p) p.th_seq d' word (lookup-store (sent_key p) c d.conns))
        carry)
