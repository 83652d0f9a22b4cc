-- ===== src/Dump/KeyOrder.antt =====
-- The order of the keys of connections, as the map of Dump.h needs it.
use analyse_tcp.Prelude.{◌≡◌, true, false, arith}
use analyse_tcp.Dump.Table.{ConnectionMapKey, key_before}

-- ConnectionKeyComparator is a strict order: no key is before itself, and it is transitive; and two keys of
-- which neither is before the other are the same in every field, so that the map tells
-- all connections apart.
pub key_before-StrictOrder :
    (a b c : ConnectionMapKey)
    → (key_before a a ≡ false)
      × (key_before a b ≡ true → key_before b c ≡ true → key_before a c ≡ true)
      × (key_before a b ≡ false → key_before b a ≡ false → a ≡ b)
unfolding key_before
key_before-StrictOrder a b c = ground arith
