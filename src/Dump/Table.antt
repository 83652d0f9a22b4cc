-- ===== src/Dump/Table.antt =====
-- The table of connections of Dump.h: `map<ConnectionMapKey*, Connection*, ConnectionKeyComparator>`, as
-- the entries in the order of their keys, and `Dump::getConn` of Dump.cc on parsed addresses.
use analyse_tcp.Prelude.{
  ℕ, Bool, false, not, ltb, ◌==◌, if◌then◌else◌, Option, none, some, List, [], ◌∷◌,
}
use analyse_tcp.Conn.{Connection, new_connection}

pub record ConnectionMapKey : Type 0 where
  pub ip_src : ℕ
  pub ip_dst : ℕ
  pub src_port : ℕ
  pub dst_port : ℕ

-- `ConnectionKeyComparator`
unfoldable pub key_before : ConnectionMapKey → ConnectionMapKey → Bool
key_before left right =
    if not (left.ip_src == right.ip_src)
    then ltb left.ip_src right.ip_src
    else if not (left.src_port == right.src_port)
    then ltb left.src_port right.src_port
    else if not (left.ip_dst == right.ip_dst)
    then ltb left.ip_dst right.ip_dst
    else if not (left.dst_port == right.dst_port)
    then ltb left.dst_port right.dst_port
    else false

abbrev pub ConnectionTable : Type 0
ConnectionTable = List (ConnectionMapKey × Connection)

-- Two keys are the same entry if neither is before the other.
unfoldable pub lookup : ConnectionMapKey → ConnectionTable → Option Connection
lookup key [] = none
lookup key ((k, c) ∷ t) =
    if key_before k key then lookup key t else if key_before key k then none else some c

-- The entry of a key gets this connection; a key that is not there gets an entry.
unfoldable pub store : ConnectionMapKey → Connection → ConnectionTable → ConnectionTable
store key conn [] = (key, conn) ∷ []
store key conn ((k, c) ∷ t) =
    if key_before k key
    then (k, c) ∷ store key conn t
    else if key_before key k
    then (key, conn) ∷ (k, c) ∷ t
    else (k, conn) ∷ t

-- `getConn`: the connection of the key. With a sequence number a new one is created for a key that is
-- not there.
unfoldable pub get_conn :
    ConnectionMapKey → Option ℕ → ConnectionTable → ConnectionTable × Option Connection
get_conn key seq table = elim (lookup key table) as (λ _. ConnectionTable × Option Connection) [
  | some c ↦ (table, some c)
  | none ↦ elim seq as (λ _. ConnectionTable × Option Connection) [
    | none ↦ (table, none)
    | some s ↦ (store key (new_connection s) table, some (new_connection s))
  ]
]
