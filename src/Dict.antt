-- ===== src/Dict.antt =====
-- A Go map with string keys, as a list of bindings that holds a key at most once. Its order stands
-- for the order of one iteration.
use gimme.Base.{
  Bytes, text_eq, text_eq_iff, if◌then◌else◌, false, List, [], ◌∷◌, Option, none, some, ◌≡◌, arith,
  Bool-cases, inl, inr, ◌≢◌, All, Distinct, map, text_eq_refl,
}

module _ {ℓ} {V : Type ℓ} where
  unfoldable pub lookup : Bytes → List (Bytes × V) → Option V
  unfolding text_eq
  lookup k [] = none
  lookup k ((j, v) ∷ m) = if text_eq j k then some v else lookup k m

  unfoldable pub remove : Bytes → List (Bytes × V) → List (Bytes × V)
  unfolding text_eq
  remove k [] = []
  remove k ((j, v) ∷ m) = let rest = remove k m in if text_eq j k then rest else (j, v) ∷ rest

  unfoldable pub insert : Bytes → V → List (Bytes × V) → List (Bytes × V)
  unfolding remove
  insert k v m = (k, v) ∷ remove k m

  pub lookup-remove :
      (k j : Bytes) (m : List (Bytes × V))
      → lookup j (remove k m) ≡ (if text_eq k j then none else lookup j m)
  unfolding lookup remove
  lookup-remove k j [] = ground arith
  lookup-remove k j ((i, v) ∷ m) =
      ground (arith, lookup-remove k j m, text_eq_iff i k, text_eq_iff i j, text_eq_iff k j)

  pub lookup-insert :
      (k j : Bytes) (v : V) (m : List (Bytes × V))
      → lookup j (insert k v m) ≡ (if text_eq k j then some v else lookup j m)
  unfolding lookup insert
  lookup-insert k j v m = ground (arith, lookup-remove k j m)

-- Every binding of the list is the one that a lookup finds.
abbrev pub Listed {ℓ} : {V : Type ℓ} → List (Bytes × V) → List (Bytes × V) → Type ℓ
Listed m = All (λ b. lookup b.0 m ≡ some b.1)

abbrev pub keys {ℓ} : {V : Type ℓ} → List (Bytes × V) → List Bytes
keys = map (λ b. b.0)

module _ {ℓ} {V : Type ℓ} where
  remove-All :
      (P : Bytes → Type 0) (k : Bytes) (m : List (Bytes × V))
      → All P (keys m)
      → All P (keys (remove k m))
  unfolding remove
  remove-All P k [] h = tt
  remove-All P k ((j, v) ∷ m) (p, h) = elim (Bool-cases (text_eq j k)) [
    | inl e ↦ rw e (remove-All P k m h)
    | inr e ↦ rw e (p, remove-All P k m h)
  ]

  removed : (k : Bytes) (m : List (Bytes × V)) → All (λ j. k ≢ j) (keys (remove k m))
  unfolding remove
  removed k [] = tt
  removed k ((j, v) ∷ m) = elim (Bool-cases (text_eq j k)) [
    | inl e ↦ rw e (removed k m)
    | inr e ↦ rw e ((λ q. ground (arith, text_eq_iff j k)), removed k m)
  ]

  pub remove-Distinct :
      (k : Bytes) (m : List (Bytes × V)) → Distinct (keys m) → Distinct (keys (remove k m))
  unfolding remove
  remove-Distinct k [] h = tt
  remove-Distinct k ((j, v) ∷ m) (n, h) = elim (Bool-cases (text_eq j k)) [
    | inl e ↦ rw e (remove-Distinct k m h)
    | inr e ↦ rw e (remove-All (λ i. j ≢ i) k m n, remove-Distinct k m h)
  ]

  pub insert-Distinct :
      (k : Bytes) (v : V) (m : List (Bytes × V))
      → Distinct (keys m)
      → Distinct (keys (insert k v m))
  unfolding insert
  insert-Distinct k v m h = (removed k m, remove-Distinct k m h)

  pub Listed-cons :
      (k : Bytes) (v : V) (m n : List (Bytes × V))
      → All (λ j. k ≢ j) (keys n)
      → Listed m n
      → Listed ((k, v) ∷ m) n
  unfolding lookup
  Listed-cons k v m [] a h = tt
  Listed-cons k v m ((j, w) ∷ n) (ne, a) (e, h) =
      (ground (arith, text_eq_iff k j), Listed-cons k v m n a h)

  pub Distinct-Listed : (m : List (Bytes × V)) → Distinct (keys m) → Listed m m
  unfolding lookup
  Distinct-Listed [] h = tt
  Distinct-Listed ((k, v) ∷ m) (n, h) =
      (rw text_eq_refl, Listed-cons k v m m n (Distinct-Listed m h))

-- A test of two texts as an equation or its negation.
pub text_eq-ne : (s t : Bytes) → s ≢ t → text_eq s t ≡ false
text_eq-ne s t h = elim (Bool-cases (text_eq s t)) [
  | inl e ↦ absurd (h ((text_eq_iff s t).0 e))
  | inr e ↦ e
]
