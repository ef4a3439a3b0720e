-- ===== src/Dict.antt =====
-- `std::map` and `std::set` keyed by byte strings, as association lists. The order of iteration is not
-- that of the keys; no operation that is modelled depends on it.
use sovranx.Prelude.{
  ℕ, ◌+◌, ◌≤◌, ◌≡◌, refl, subst, List, [], ◌∷◌, Option, none, some, Bytes, ◌===◌, ===_iff,
  Bool-cases, inl, inr, length, if◌then◌else◌, arith,
}

module _ {ℓ} {V : Type ℓ} where
  unfoldable pub lookup : Bytes → List (Bytes × V) → Option V
  lookup k [] = none
  lookup k ((j, v) ∷ m) = if j === k then some v else lookup k m

  unfoldable pub erase : Bytes → List (Bytes × V) → List (Bytes × V)
  erase k [] = []
  erase k ((j, v) ∷ m) = if j === k then erase k m else (j, v) ∷ erase k m

  unfoldable pub insert : Bytes → V → List (Bytes × V) → List (Bytes × V)
  insert k v m = (k, v) ∷ erase k m

  pub lookup-erase :
      (k j : Bytes) (m : List (Bytes × V))
      → lookup j (erase k m) ≡ (if k === j then none else lookup j m)
  unfolding lookup erase
  lookup-erase k j [] = ground arith
  lookup-erase k j ((i, w) ∷ m) =
      ground (arith, ===_iff k j, ===_iff i k, ===_iff i j, lookup-erase k j m)

  pub lookup-insert :
      (k j : Bytes) (v : V) (m : List (Bytes × V))
      → lookup j (insert k v m) ≡ (if k === j then some v else lookup j m)
  unfolding lookup insert
  lookup-insert k j v m = ground (arith, lookup-erase k j m)

  pub lookup-insert_self :
      (k : Bytes) (v : V) (m : List (Bytes × V)) → lookup k (insert k v m) ≡ some v
  lookup-insert_self k v m = ground (arith, lookup-insert k k v m, ===_iff k k)

  pub lookup-erase_self : (k : Bytes) (m : List (Bytes × V)) → lookup k (erase k m) ≡ none
  lookup-erase_self k m = ground (arith, lookup-erase k k m, ===_iff k k)

  pub erase_absent : (k : Bytes) (m : List (Bytes × V)) → lookup k m ≡ none → erase k m ≡ m
  unfolding lookup erase
  erase_absent k [] h = refl
  erase_absent k ((j, v) ∷ m) h = ground (arith, erase_absent k m)

  -- No key stands twice.
  abbrev pub Distinct : List (Bytes × V) → Type ℓ
  Distinct [] = Unit
  Distinct ((k, v) ∷ m) = (lookup k m ≡ none) × Distinct m

  pub erase-Distinct : (k : Bytes) (m : List (Bytes × V)) → Distinct m → Distinct (erase k m)
  unfolding erase
  erase-Distinct k [] d = d
  erase-Distinct k ((j, v) ∷ m) d =
      ground (arith, lookup-erase k j m, ===_iff k j, erase-Distinct k m d.1)

  pub insert-Distinct :
      (k : Bytes) (v : V) (m : List (Bytes × V)) → Distinct m → Distinct (insert k v m)
  unfolding insert
  insert-Distinct k v m d = (lookup-erase_self k m, erase-Distinct k m d)

  pub length-erase-le : (k : Bytes) (m : List (Bytes × V)) → length (erase k m) ≤ length m
  unfolding erase
  length-erase-le k [] = omega arith
  length-erase-le k ((j, v) ∷ m) = ground (arith, length-erase-le k m)

  pub length-erase :
      (k : Bytes) (m : List (Bytes × V)) (v : V)
      → Distinct m
      → lookup k m ≡ some v
      → length (erase k m) + 1 ≡ length m
  unfolding lookup erase
  length-erase k [] v d h = ground arith
  length-erase k ((j, w) ∷ m) v d h =
      ground (arith, ===_iff j k, erase_absent k m, length-erase k m v d.1)

  -- The sum of a measure over the values.
  abbrev pub sum_by : (V → ℕ) → List (Bytes × V) → ℕ
  sum_by f [] = 0
  sum_by f ((k, v) ∷ m) = f v + sum_by f m

  pub sum_by-erase :
      (f : V → ℕ) (k : Bytes) (m : List (Bytes × V)) (v : V)
      → Distinct m
      → lookup k m ≡ some v
      → sum_by f (erase k m) + f v ≡ sum_by f m
  unfolding lookup erase
  sum_by-erase f k [] v d h = ground arith
  sum_by-erase f k ((j, w) ∷ m) v d h =
      ground (arith, ===_iff j k, erase_absent k m, sum_by-erase f k m v d.1)

  -- A property of every entry.
  abbrev pub Every {κ} : (Bytes → V → Type κ) → List (Bytes × V) → Type κ
  Every P [] = Unit
  Every P ((k, v) ∷ m) = P k v × Every P m

module _ {ℓ κ} {V : Type ℓ} (P : Bytes → V → Type κ) where
  pub erase-Every : (k : Bytes) (m : List (Bytes × V)) → Every P m → Every P (erase k m)
  unfolding erase
  erase-Every k [] h = h
  erase-Every k ((j, v) ∷ m) h = elim (Bool-cases (j === k)) [
    | inl e ↦ rw e (erase-Every k m h.1)
    | inr e ↦ rw e (h.0, erase-Every k m h.1)
  ]

  pub insert-Every :
      (k : Bytes) (v : V) (m : List (Bytes × V)) → P k v → Every P m → Every P (insert k v m)
  unfolding insert
  insert-Every k v m p h = (p, erase-Every k m h)

  pub lookup-Every :
      (k : Bytes) (m : List (Bytes × V)) (v : V) → Every P m → lookup k m ≡ some v → P k v
  unfolding lookup
  lookup-Every k [] v h e = ground arith
  lookup-Every k ((j, w) ∷ m) v h e = elim (Bool-cases (j === k)) [
    | inl same ↦
        let jk : j ≡ k = (===_iff j k).0 same in
        let wv : w ≡ v = ground arith in subst (P k) wv (subst (λ i. P i w) jk h.0)
    | inr other ↦ lookup-Every k m v h.1 (ground arith)
  ]
