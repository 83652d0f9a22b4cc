-- ===== src/Intervals/Buckets.antt =====
-- A vector that is grown up to an index, with empty elements, before the element there is changed.
use analyse_tcp.Prelude.{
  ℕ, zero, suc, ◌<◌, ◌≡◌, refl, ◌==◌, if◌then◌else◌, max, some, List, [], ◌∷◌, length, get_elem?,
  arith,
}

module _ {ℓ} {A : Type ℓ} where
  -- `while (i >= v.size()) v.push_back(empty)`, and the change of `v[i]` behind it.
  unfoldable pub grow_at : A → ℕ → (A → A) → List A → List A
  grow_at empty zero f [] = f empty ∷ []
  grow_at empty zero f (x ∷ xs) = f x ∷ xs
  grow_at empty (suc i) f [] = empty ∷ grow_at empty i f []
  grow_at empty (suc i) f (x ∷ xs) = x ∷ grow_at empty i f xs

  -- The element at an index, or the empty one behind the end.
  abbrev pub get_or : List A → ℕ → A → A
  get_or [] i d = d
  get_or (x ∷ xs) zero d = x
  get_or (x ∷ xs) (suc i) d = get_or xs i d

  pub get_or-grow_at :
      (d : A) (i j : ℕ) (f : A → A) (xs : List A)
      → get_or (grow_at d i f xs) j d ≡ (if i == j then f (get_or xs j d) else get_or xs j d)
  unfolding grow_at
  get_or-grow_at d zero zero f [] = refl
  get_or-grow_at d zero (suc j) f [] = ground arith
  get_or-grow_at d zero zero f (x ∷ xs) = refl
  get_or-grow_at d zero (suc j) f (x ∷ xs) = ground arith
  get_or-grow_at d (suc i) zero f [] = ground arith
  get_or-grow_at d (suc i) (suc j) f [] = ground (arith, get_or-grow_at d i j f [])
  get_or-grow_at d (suc i) zero f (x ∷ xs) = ground arith
  get_or-grow_at d (suc i) (suc j) f (x ∷ xs) = ground (arith, get_or-grow_at d i j f xs)

  pub length-grow_at :
      (d : A) (i : ℕ) (f : A → A) (xs : List A)
      → length (grow_at d i f xs) ≡ max (length xs) (suc i)
  unfolding grow_at
  length-grow_at d zero f [] = omega arith
  length-grow_at d zero f (x ∷ xs) = omega arith
  length-grow_at d (suc i) f [] = omega (arith, length-grow_at d i f [])
  length-grow_at d (suc i) f (x ∷ xs) = omega (arith, length-grow_at d i f xs)

  -- An element inside is the one that a read finds.
  pub get_elem?-eq-get_or :
      (xs : List A) (i : ℕ) (d : A) → i < length xs → get_elem? xs i ≡ some (get_or xs i d)
  get_elem?-eq-get_or [] i d h = let out : ⊥ = omega arith in elim out [ ]
  get_elem?-eq-get_or (x ∷ xs) zero d h = refl
  get_elem?-eq-get_or (x ∷ xs) (suc i) d h = get_elem?-eq-get_or xs i d (omega arith)
