-- ===== src/BTreeMap.antt =====
-- `alloc::collections::BTreeMap` as the source uses it: an association list in ascending order of
-- its keys, which is the order in which `values`, `iter` and `into_values` go through it.
pub mod Keys
pub mod Order
use riptide.Prelude.{
  Ordering, ◌≡◌, refl, Bool, true, false, Option, none, some, List, [], ◌∷◌, arith, if◌then◌else◌,
  ◌≢◌,
}
use Keys.{Key}

abbrev pub Map {ℓ κ} : Type ℓ → Type κ → Type (ℓ ⊔ κ)
Map K V = List (K × V)

abbrev pub key_eq {ℓ} : {K : Type ℓ} ⦃key : Key K⦄ → K → K → Bool
key_eq ⦃key⦄ a b = elim (key.cmp a b) [ Ordering.eq ↦ true | _ ↦ false ]

module _ {ℓ κ} {K : Type ℓ} {V : Type κ} ⦃key : Key K⦄ where
  -- `get`
  unfoldable pub lookup : K → Map K V → Option V
  lookup k [] = none
  lookup k ((j, v) ∷ m) = if key_eq k j then some v else lookup k m

  -- `insert`, which overwrites the value at a key that is there
  unfoldable pub insert : K → V → Map K V → Map K V
  insert k v [] = (k, v) ∷ []
  insert k v ((j, w) ∷ m) = elim (key.cmp k j) [
    | Ordering.lt ↦ (k, v) ∷ (j, w) ∷ m
    | Ordering.eq ↦ (k, v) ∷ m
    | Ordering.gt ↦ (j, w) ∷ insert k v m
  ]

  -- `remove`
  unfoldable pub remove : K → Map K V → Map K V
  remove k [] = []
  remove k ((j, w) ∷ m) = let rest = remove k m in if key_eq k j then rest else (j, w) ∷ rest

  pub lookup-insert :
      (j k : K) (v : V) (m : Map K V)
      → lookup j (insert k v m) ≡ (if key_eq j k then some v else lookup j m)
  unfolding lookup insert
  lookup-insert j k v [] = ground arith
  lookup-insert j k v ((i, w) ∷ m) =
      ground (
        arith,
        key.cmp_eq k i,
        key.cmp_eq j k,
        key.cmp_eq j i,
        key.cmp_refl k,
        lookup-insert j k v m,
      )

  pub lookup-remove :
      (j k : K) (m : Map K V) → lookup j (remove k m) ≡ (if key_eq j k then none else lookup j m)
  unfolding lookup remove
  lookup-remove j k [] = ground arith
  lookup-remove j k ((i, w) ∷ m) =
      ground
        (arith, key.cmp_eq k i, key.cmp_eq j k, key.cmp_eq j i, key.cmp_refl k, lookup-remove j k m)

  pub lookup-insert_self : (k : K) (v : V) (m : Map K V) → lookup k (insert k v m) ≡ some v
  lookup-insert_self k v m = ground (arith, lookup-insert k k v m, key.cmp_refl k)

  pub lookup-insert_ne :
      (j k : K) (v : V) (m : Map K V) → j ≢ k → lookup j (insert k v m) ≡ lookup j m
  lookup-insert_ne j k v m h = ground (arith, lookup-insert j k v m, key.cmp_eq j k)

  pub lookup-remove_self : (k : K) (m : Map K V) → lookup k (remove k m) ≡ none
  lookup-remove_self k m = ground (arith, lookup-remove k k m, key.cmp_refl k)

  pub lookup-remove_ne : (j k : K) (m : Map K V) → j ≢ k → lookup j (remove k m) ≡ lookup j m
  lookup-remove_ne j k m h = ground (arith, lookup-remove j k m, key.cmp_eq j k)

-- A key that is inserted twice has its last value.
module _ {ℓ κ} {K : Type ℓ} {V : Type κ} ⦃key : Key K⦄ where
  pub insert-insert : (k : K) (v w : V) (m : Map K V) → insert k v (insert k w m) ≡ insert k v m
  unfolding insert
  insert-insert k v w [] = rw (key.cmp_refl k) refl
  insert-insert k v w ((i, x) ∷ m) = ground (arith, key.cmp_refl k, insert-insert k v w m)

-- `retain` by value
unfoldable pub retain {ℓ κ} : {K : Type ℓ} {V : Type κ} → (V → Bool) → Map K V → Map K V
retain p [] = []
retain p ((j, w) ∷ m) = let rest = retain p m in if p w then (j, w) ∷ rest else rest

-- `values`, `into_values`
unfoldable pub values {ℓ κ} : {K : Type ℓ} {V : Type κ} → Map K V → List V
values [] = []
values ((j, w) ∷ m) = w ∷ values m
