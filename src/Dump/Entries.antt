-- ===== src/Dump/Entries.antt =====
-- The table of connections finds what was stored.
use analyse_tcp.Prelude.{◌≡◌, refl, true, false, some, [], ◌∷◌, arith, Bool-cases, inl, inr, ◌⊎◌}
use analyse_tcp.Conn.{Connection}
use analyse_tcp.Dump.Table.{ConnectionMapKey, ConnectionTable, key_before, lookup, store}
use analyse_tcp.Dump.KeyOrder.{key_before-StrictOrder}

key_before_self : (k : ConnectionMapKey) → key_before k k ≡ false
key_before_self k = (key_before-StrictOrder k k k).0

pub lookup-store :
    (key : ConnectionMapKey) (c : Connection) (t : ConnectionTable)
    → lookup key (store key c t) ≡ some c
unfolding lookup store
lookup-store key c [] = rw (key_before_self key) refl
lookup-store key c ((k, d) ∷ t) = elim (Bool-cases (key_before k key)) [
  | inl h ↦ rw (h, h) (lookup-store key c t)
  | inr h ↦ rw h (elim (Bool-cases (key_before key k)) [
    | inl g ↦ rw (g, key_before_self key) refl
    | inr g ↦ rw (g, h, g) refl
  ])
]

abbrev pub Apart : ConnectionMapKey → ConnectionMapKey → Type 0
Apart j k = (key_before j k ≡ true) ⊎ (key_before k j ≡ true)

-- A key that is before another is not behind it.
not_behind : (j k : ConnectionMapKey) → key_before j k ≡ true → key_before k j ≡ false
not_behind j k h = elim (Bool-cases (key_before k j)) [
  | inr g ↦ g
  | inl g ↦ ground (arith, key_before_self j, (key_before-StrictOrder j k j).1 h g)
]

pub lookup-store_other :
    (j key : ConnectionMapKey) (c : Connection) (t : ConnectionTable)
    → Apart j key
    → lookup j (store key c t) ≡ lookup j t
unfolding lookup store
lookup-store_other j key c [] (inl before) = rw (not_behind j key before, before) refl
lookup-store_other j key c [] (inr behind) = rw behind refl
lookup-store_other j key c ((k, d) ∷ t) apart = elim (Bool-cases (key_before k key)) [
  | inl h ↦ rw (h, lookup-store_other j key c t apart) refl
  | inr h ↦ rw h (elim (Bool-cases (key_before key k)) [
    | inl g ↦ rw g (elim apart [
      | inr behind ↦ rw behind refl
      | inl before ↦
          let first = (key_before-StrictOrder j key k).1 before g in
          rw (not_behind j key before, before, not_behind j k first, first) refl
    ])
    | inr g ↦
        let same : k ≡ key = (key_before-StrictOrder k key k).2 h g in
        rw g (elim apart [
          | inl before ↦ rw (same, not_behind j key before, before) refl
          | inr behind ↦ rw (same, behind) refl
        ])
  ])
]
