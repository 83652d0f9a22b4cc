-- ===== src/Dump/Events.antt =====
-- A trace as a sequence of packets for the handlers, and the connection of one key by itself.
use analyse_tcp.Prelude.{
  ℕ, Bool, not, ◌&&◌, Option, none, some, List, [], ◌∷◌, Result, ok, ◌>>=◌, if◌then◌else◌,
}
use analyse_tcp.Conn.{Connection, new_connection}
use analyse_tcp.Dump.Table.{ConnectionMapKey, key_before}
use analyse_tcp.Dump.Handlers.{
  Dump, Packet, sent_key, acked_key, sent_connection, process_sent, ack_connection, process_acks,
  recvd_connection, process_recvd,
}

-- A packet that a handler gets.
pub data Event : Type 0 where
  sent : ℕ → Packet → Event
  acked : Packet → Event
  received : ℕ → Packet → Event

abbrev pub event_key : Event → ConnectionMapKey
event_key (sent link p) = sent_key p
event_key (acked p) = acked_key p
event_key (received link p) = sent_key p

abbrev pub handle : Event → Dump → Result Dump
handle (sent link p) d = process_sent link p d
handle (acked p) d = process_acks p d
handle (received link p) d = process_recvd link p d

-- The packets of a trace, one after the other.
unfoldable pub run : List Event → Dump → Result Dump
run [] d = ok d
run (e ∷ es) d = handle e d >>= run es

abbrev pub or_same : Connection → Option Connection → Option Connection
or_same c none = some c
or_same c (some c') = some c'

-- What a packet does to the connection of its key, by itself.
abbrev pub effect : Event → Option Connection → Result (Option Connection)
effect (sent link p) none = sent_connection link p (new_connection p.th_seq) >>= λ r.
    ok (or_same (new_connection p.th_seq) r)
effect (sent link p) (some c) = sent_connection link p c >>= λ r. ok (or_same c r)
effect (acked p) none = ok none
effect (acked p) (some c) = ack_connection p c >>= λ r. ok (or_same c r)
effect (received link p) none = ok none
effect (received link p) (some c) = recvd_connection link p c >>= λ r. ok (or_same c r)

-- Neither key is before the other.
abbrev pub same_key : ConnectionMapKey → ConnectionMapKey → Bool
same_key j k = not (key_before j k) && not (key_before k j)

-- What the packets of a trace do to the connection of one key, those of other keys left out.
unfoldable pub run_alone :
    ConnectionMapKey → List Event → Option Connection → Result (Option Connection)
run_alone key [] o = ok o
run_alone key (e ∷ es) o =
    if same_key key (event_key e) then (effect e o >>= run_alone key es) else run_alone key es o
