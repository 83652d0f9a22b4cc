-- ===== src/Dump/Isolation.antt =====
-- The packets of one connection do not depend on those of the others.
use analyse_tcp.Prelude.{
  ℕ, ◌≡◌, refl, ap, ◌∙◌, sym, ◌+◌, Option, none, some, List, [], ◌∷◌, arith, Bool-cases, inl, inr,
  Result, ok, err, ◌>>=◌, Fault, >>=-eq-ok,
}
use analyse_tcp.Words.{add64}
use analyse_tcp.Conn.{Connection, new_connection}
use analyse_tcp.Dump.Table.{ConnectionMapKey, ConnectionTable, lookup, store, get_conn}
use analyse_tcp.Dump.KeyOrder.{key_before-StrictOrder}
use analyse_tcp.Dump.Handlers.{
  Dump, Packet, sent_key, acked_key, settle, sent_connection, count_sent, process_sent,
  ack_connection, payload_of, process_acks, recvd_connection, process_recvd,
}
use analyse_tcp.Dump.KeyOrder.{key_before-StrictOrder}
use analyse_tcp.Dump.Entries.{Apart, lookup-store, lookup-store_other}
use analyse_tcp.Dump.Events.{
  Event, sent, acked, received, event_key, handle, run, or_same, effect, same_key, run_alone,
}

settled :
    (key : ConnectionMapKey) (count : Dump → Dump) (r : Option Connection) (d : Dump)
    (c : Connection)
    → lookup key d.conns ≡ some c
    → lookup key ((settle key count r d).conns) ≡ or_same c r
settled key count none d c e = e
settled key count (some c') d c e = lookup-store key c' d.conns

settled_other :
    (key j : ConnectionMapKey) (count : Dump → Dump) (r : Option Connection) (d : Dump)
    → Apart j key
    → lookup j ((settle key count r d).conns) ≡ lookup j d.conns
settled_other key j count none d a = refl
settled_other key j count (some c) d a = lookup-store_other j key c d.conns a

-- A handler's result, and what it leaves in the table.
settle_effect :
    (key : ConnectionMapKey) (count : Dump → Dump) (c : Connection) (d d' : Dump)
    (call : Result (Option Connection))
    → lookup key d.conns ≡ some c
    → (call >>= λ r. ok (settle key count r d)) ≡ ok d'
    → (call >>= λ r. ok (or_same c r)) ≡ ok (lookup key d'.conns)
settle_effect key count c d d' (err f) e run_ok = cc
settle_effect key count c d d' (ok r) e run_ok =
    let same : settle key count r d ≡ d' = cc in
    ap ok (sym (settled key count r d c e) ∙ ap (λ (e : Dump). lookup key e.conns) same)

settle_other :
    (key j : ConnectionMapKey) (count : Dump → Dump) (d d' : Dump)
    (call : Result (Option Connection))
    → Apart j key
    → (call >>= λ r. ok (settle key count r d)) ≡ ok d'
    → lookup j d'.conns ≡ lookup j d.conns
settle_other key j count d d' (err f) a run_ok = cc
settle_other key j count d d' (ok r) a run_ok =
    let same : settle key count r d ≡ d' = cc in
    ap (λ (e : Dump). lookup j e.conns) (sym same) ∙ settled_other key j count r d a

-- A handler that drops the packets of connections that are not in the table.
module _ (key : ConnectionMapKey) (count : Dump → Dump)
    (call : Connection → Result (Option Connection)) (d d' : Dump) where
  known_effect :
      (o : Option Connection)
      → lookup key d.conns ≡ o
      → (elim o as (λ _. Result Dump) [
        | none ↦ ok d
        | some c ↦ call c >>= λ r. ok (settle key count r d)
      ])
        ≡ ok d'
      → (elim o as (λ _. Result (Option Connection)) [
        | none ↦ ok none
        | some c ↦ call c >>= λ r. ok (or_same c r)
      ])
        ≡ ok (lookup key d'.conns)
  known_effect none e run_ok =
      let same : d ≡ d' = cc in ap ok (sym e ∙ ap (λ (e : Dump). lookup key e.conns) same)
  known_effect (some c) e run_ok = settle_effect key count c d d' (call c) e run_ok

  known_other :
      (j : ConnectionMapKey) (o : Option Connection)
      → Apart j key
      → (elim o as (λ _. Result Dump) [
        | none ↦ ok d
        | some c ↦ call c >>= λ r. ok (settle key count r d)
      ])
        ≡ ok d'
      → lookup j d'.conns ≡ lookup j d.conns
  known_other j none a run_ok =
      let same : d ≡ d' = cc in ap (λ (e : Dump). lookup j e.conns) (sym same)
  known_other j (some c) a run_ok = settle_other key j count d d' (call c) a run_ok

-- What `effect` does, as one case analysis.
effect_acked :
    (p : Packet) (o : Option Connection)
    → effect (acked p) o ≡ (elim o as (λ _. Result (Option Connection)) [
      | none ↦ ok none
      | some c ↦ ack_connection p c >>= λ r. ok (or_same c r)
    ])
effect_acked p none = refl
effect_acked p (some c) = refl

effect_received :
    (link : ℕ) (p : Packet) (o : Option Connection)
    → effect (received link p) o ≡ (elim o as (λ _. Result (Option Connection)) [
      | none ↦ ok none
      | some c ↦ recvd_connection link p c >>= λ r. ok (or_same c r)
    ])
effect_received link p none = refl
effect_received link p (some c) = refl

sent_effect :
    (link : ℕ) (p : Packet) (d d' : Dump) (o : Option Connection)
    → lookup (sent_key p) d.conns ≡ o
    → (let found : ConnectionTable × Option Connection =
          elim o as (λ _. ConnectionTable × Option Connection) [
            | some c ↦ (d.conns, some c)
            | none ↦ (
              store (sent_key p) (new_connection p.th_seq) d.conns,
              some (new_connection p.th_seq),
            )
          ] in
        elim found.1 as (λ _. Result Dump) [
          | none ↦ err Fault.out_of_range
          | some c ↦ sent_connection link p c >>= λ r.
              ok (settle (sent_key p) (count_sent link p) r (record d { conns = found.0 }))
        ])
      ≡ ok d'
    → (effect (sent link p) o ≡ ok (lookup (sent_key p) d'.conns))
      × ((j : ConnectionMapKey) → Apart j (sent_key p) → lookup j d'.conns ≡ lookup j d.conns)
sent_effect link p d d' none e run_ok =
    let c = new_connection p.th_seq in
    let d₁ : Dump = record d { conns = store (sent_key p) c d.conns } in
    (
      settle_effect (sent_key p) (count_sent link p) c d₁ d' (sent_connection link p c)
          (lookup-store (sent_key p) c d.conns) run_ok,
      λ j a.
          settle_other (sent_key p) j (count_sent link p) d₁ d' (sent_connection link p c) a run_ok
          ∙ lookup-store_other j (sent_key p) c d.conns a,
    )
sent_effect link p d d' (some c) e run_ok = (
  settle_effect (sent_key p) (count_sent link p) c d d' (sent_connection link p c) e run_ok,
  λ j a. settle_other (sent_key p) j (count_sent link p) d d' (sent_connection link p c) a run_ok,
)

-- A handler does to the connection of the packet what the packet does to it by itself, and nothing to
-- the others.
pub handle_lem :
    (e : Event) (d d' : Dump)
    → handle e d ≡ ok d'
    → (effect e (lookup (event_key e) d.conns) ≡ ok (lookup (event_key e) d'.conns))
      × ((j : ConnectionMapKey) → Apart j (event_key e) → lookup j d'.conns ≡ lookup j d.conns)
unfolding process_sent process_acks process_recvd get_conn
handle_lem (sent link p) d d' e = sent_effect link p d d' (lookup (sent_key p) d.conns) refl e
handle_lem (acked p) d d' e =
    let o = lookup (acked_key p) d.conns in
    let count : Dump → Dump = λ f. record f { ack_count = f.ack_count + 1 } in
    (
      effect_acked p o ∙ known_effect (acked_key p) count (ack_connection p) d d' o refl e,
      λ j a. known_other (acked_key p) count (ack_connection p) d d' j o a e,
    )
handle_lem (received link p) d d' e =
    let o = lookup (sent_key p) d.conns in
    let count : Dump → Dump = λ f. record f {
      recv_packet_count = f.recv_packet_count + 1;
      recv_bytes_count = add64 f.recv_bytes_count (payload_of link p);
    } in
    (
      effect_received link p o
          ∙ known_effect (sent_key p) count (recvd_connection link p) d d' o refl e,
      λ j a. known_other (sent_key p) count (recvd_connection link p) d d' j o a e,
    )

-- A whole trace, if none of its packets meets a fault: what the table holds for a key at the end is what
-- the packets of that key alone make of what it held at the start. The connections do not depend
-- on each other.
pub run-alone :
    (key : ConnectionMapKey) (es : List Event) (d d' : Dump)
    → run es d ≡ ok d'
    → run_alone key es (lookup key d.conns) ≡ ok (lookup key d'.conns)
unfolding run run_alone
run-alone key [] d d' e = let same : d ≡ d' = cc in ap (λ (f : Dump). ok (lookup key f.conns)) same
run-alone key (e ∷ es) d d' run_ok =
    let (mid, first, later) = >>=-eq-ok (handle e d) (run es) run_ok in
    let (own, others) = handle_lem e d mid first in
    let rest = run-alone key es mid d' later in
    elim (Bool-cases (same_key key (event_key e))) [
      | inl h ↦
          let same : key ≡ event_key e =
            (key_before-StrictOrder key (event_key e) key).2 (ground (arith, h))
              (ground (arith, h)) in
          let mine : effect e (lookup key d.conns) ≡ ok (lookup key mid.conns) = rw same own in
          rw (h, mine) rest
      | inr h ↦ rw (h, sym (others key (ground (arith, h)))) rest
    ]
