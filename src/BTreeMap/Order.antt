-- ===== src/BTreeMap/Order.antt =====
-- The keys of a map stay in strictly ascending order.
use mathlib.Core.Path.{subst}
use riptide.Prelude.{Ordering, ◌≡◌, sym, Bool, [], ◌∷◌, arith, All, ◌⊎◌, inl, inr}
use riptide.BTreeMap.{Map, insert, remove, retain}
use riptide.BTreeMap.Keys.{Key}

Ordering-cases : (o : Ordering) → (o ≡ Ordering.lt) ⊎ ((o ≡ Ordering.eq) ⊎ (o ≡ Ordering.gt))
Ordering-cases o = ground arith

module _ {ℓ κ} {K : Type ℓ} {V : Type κ} ⦃key : Key K⦄ where
  abbrev pub IsAbove : K → Map K V → Type 0
  IsAbove k m = All (λ (e : K × V). key.cmp k e.0 ≡ Ordering.lt) m

  abbrev pub IsAscending : Map K V → Type 0
  IsAscending [] = Unit
  IsAscending ((k, v) ∷ m) = IsAbove k m × IsAscending m

  IsAbove-below : (j k : K) (m : Map K V) → key.cmp j k ≡ Ordering.lt → IsAbove k m → IsAbove j m
  IsAbove-below j k [] p h = tt
  IsAbove-below j k ((i, v) ∷ m) p h = (key.cmp_trans j k i p h.0, IsAbove-below j k m p h.1)

  IsAbove-insert :
      (j k : K) (v : V) (m : Map K V)
      → key.cmp j k ≡ Ordering.lt
      → IsAbove j m
      → IsAbove j (insert k v m)
  unfolding insert
  IsAbove-insert j k v [] p h = (p, tt)
  IsAbove-insert j k v ((i, w) ∷ m) p h = ground (arith, IsAbove-insert j k v m p h.1, h.0, h.1)

  insert_lt :
      (k i : K) (v w : V) (m : Map K V)
      → key.cmp k i ≡ Ordering.lt
      → insert k v ((i, w) ∷ m) ≡ (k, v) ∷ (i, w) ∷ m
  unfolding insert
  insert_lt k i v w m e = ground arith

  insert_eq :
      (k i : K) (v w : V) (m : Map K V)
      → key.cmp k i ≡ Ordering.eq
      → insert k v ((i, w) ∷ m) ≡ (i, v) ∷ m
  unfolding insert
  insert_eq k i v w m e = ground (arith, key.cmp_eq k i)

  insert_gt :
      (k i : K) (v w : V) (m : Map K V)
      → key.cmp k i ≡ Ordering.gt
      → insert k v ((i, w) ∷ m) ≡ (i, w) ∷ insert k v m
  unfolding insert
  insert_gt k i v w m e = ground arith

  pub insert-IsAscending :
      (k : K) (v : V) (m : Map K V) → IsAscending m → IsAscending (insert k v m)
  insert-IsAscending k v [] h = unfold insert in (tt, tt)
  insert-IsAscending k v ((i, w) ∷ m) h = elim (Ordering-cases (key.cmp k i)) [
    | inl e ↦ subst IsAscending (sym (insert_lt k i v w m e)) ((e, IsAbove-below k i m e h.0), h)
    | inr (inl e) ↦ subst IsAscending (sym (insert_eq k i v w m e)) h
    | inr (inr e) ↦
        subst IsAscending (sym (insert_gt k i v w m e))
          (IsAbove-insert i k v m (key.cmp_flip k i e) h.0, insert-IsAscending k v m h.1)
  ]

  IsAbove-remove : (j k : K) (m : Map K V) → IsAbove j m → IsAbove j (remove k m)
  unfolding remove
  IsAbove-remove j k [] h = tt
  IsAbove-remove j k ((i, w) ∷ m) h = ground (arith, IsAbove-remove j k m h.1)

  pub remove-IsAscending : (k : K) (m : Map K V) → IsAscending m → IsAscending (remove k m)
  unfolding remove
  remove-IsAscending k [] h = tt
  remove-IsAscending k ((i, w) ∷ m) h =
      ground (arith, IsAbove-remove i k m h.0, remove-IsAscending k m h.1)

module _ {ℓ κ} {K : Type ℓ} {V : Type κ} ⦃key : Key K⦄ (p : V → Bool) where
  IsAbove-retain : (j : K) (m : Map K V) → IsAbove j m → IsAbove j (retain p m)
  unfolding retain
  IsAbove-retain j [] h = tt
  IsAbove-retain j ((i, w) ∷ m) h = ground (arith, IsAbove-retain j m h.1, h.0)

  pub retain-IsAscending : (m : Map K V) → IsAscending m → IsAscending (retain p m)
  unfolding retain
  retain-IsAscending [] h = tt
  retain-IsAscending ((i, w) ∷ m) h =
      ground (arith, IsAbove-retain i m h.0, retain-IsAscending m h.1)
