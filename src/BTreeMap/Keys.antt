-- ===== src/BTreeMap/Keys.antt =====
-- `Ord` of the key types: numbers, byte strings and pairs, in lexicographic order.
use riptide.Prelude.{ℕ, Ordering, ◌≡◌, refl, [], ◌∷◌, arith, compare, Bytes}

pub record Key {ℓ} (K : Type ℓ) : Type ℓ where
  pub cmp : K → K → Ordering
  pub cmp_eq : (a b : K) → cmp a b ≡ Ordering.eq → a ≡ b
  pub cmp_refl : (a : K) → cmp a a ≡ Ordering.eq
  pub cmp_flip : (a b : K) → cmp a b ≡ Ordering.gt → cmp b a ≡ Ordering.lt
  pub cmp_trans :
      (a b c : K) → cmp a b ≡ Ordering.lt → cmp b c ≡ Ordering.lt → cmp a c ≡ Ordering.lt

pub ℕ-cmp_trans :
    (a b c : ℕ) → compare a b ≡ Ordering.lt → compare b c ≡ Ordering.lt → compare a c ≡ Ordering.lt
ℕ-cmp_trans a b c p q = ground arith

pub ℕ-cmp_flip : (a b : ℕ) → compare a b ≡ Ordering.gt → compare b a ≡ Ordering.lt
ℕ-cmp_flip a b p = ground arith

pub ℕ-cmp_eq : (a b : ℕ) → compare a b ≡ Ordering.eq → a ≡ b
ℕ-cmp_eq a b p = ground arith

pub ℕ-cmp_refl : (a : ℕ) → compare a a ≡ Ordering.eq
ℕ-cmp_refl a = ground arith

instance abbrev pub nat_key : Key ℕ
nat_key = record {
  cmp = compare;
  cmp_eq = ℕ-cmp_eq;
  cmp_refl = ℕ-cmp_refl;
  cmp_flip = ℕ-cmp_flip;
  cmp_trans = ℕ-cmp_trans;
}

abbrev then_with : Ordering → Ordering → Ordering
then_with Ordering.eq o = o
then_with Ordering.lt o = Ordering.lt
then_with Ordering.gt o = Ordering.gt

abbrev pub bytes_cmp : Bytes → Bytes → Ordering
bytes_cmp [] [] = Ordering.eq
bytes_cmp [] (b ∷ t) = Ordering.lt
bytes_cmp (a ∷ s) [] = Ordering.gt
bytes_cmp (a ∷ s) (b ∷ t) = then_with (compare a b) (bytes_cmp s t)

pub bytes-cmp_eq : (s t : Bytes) → bytes_cmp s t ≡ Ordering.eq → s ≡ t
bytes-cmp_eq [] [] h = refl
bytes-cmp_eq [] (b ∷ t) h = ground arith
bytes-cmp_eq (a ∷ s) [] h = ground arith
bytes-cmp_eq (a ∷ s) (b ∷ t) h = ground (arith, bytes-cmp_eq s t)

pub bytes-cmp_refl : (s : Bytes) → bytes_cmp s s ≡ Ordering.eq
bytes-cmp_refl [] = refl
bytes-cmp_refl (a ∷ s) = ground (arith, bytes-cmp_refl s)

pub bytes-cmp_flip : (s t : Bytes) → bytes_cmp s t ≡ Ordering.gt → bytes_cmp t s ≡ Ordering.lt
bytes-cmp_flip [] [] h = ground arith
bytes-cmp_flip [] (b ∷ t) h = ground arith
bytes-cmp_flip (a ∷ s) [] h = refl
bytes-cmp_flip (a ∷ s) (b ∷ t) h = ground (arith, bytes-cmp_flip s t)

pub bytes-cmp_trans :
    (s t u : Bytes)
    → bytes_cmp s t ≡ Ordering.lt
    → bytes_cmp t u ≡ Ordering.lt
    → bytes_cmp s u ≡ Ordering.lt
bytes-cmp_trans [] [] u p q = ground arith
bytes-cmp_trans [] (b ∷ t) [] p q = ground arith
bytes-cmp_trans [] (b ∷ t) (c ∷ u) p q = refl
bytes-cmp_trans (a ∷ s) [] u p q = ground arith
bytes-cmp_trans (a ∷ s) (b ∷ t) [] p q = ground arith
bytes-cmp_trans (a ∷ s) (b ∷ t) (c ∷ u) p q = ground (arith, bytes-cmp_trans s t u)

instance abbrev pub bytes_key : Key Bytes
bytes_key = record {
  cmp = bytes_cmp;
  cmp_eq = bytes-cmp_eq;
  cmp_refl = bytes-cmp_refl;
  cmp_flip = bytes-cmp_flip;
  cmp_trans = bytes-cmp_trans;
}

-- A derived `Ord` on a pair of a number and a name.
abbrev pub pair_cmp : ℕ × Bytes → ℕ × Bytes → Ordering
pair_cmp (a, s) (b, t) = then_with (compare a b) (bytes_cmp s t)

pub pair-cmp_eq : (x y : ℕ × Bytes) → pair_cmp x y ≡ Ordering.eq → x ≡ y
pair-cmp_eq (a, s) (b, t) h = ground (arith, bytes-cmp_eq s t)

pub pair-cmp_refl : (x : ℕ × Bytes) → pair_cmp x x ≡ Ordering.eq
pair-cmp_refl (a, s) = ground (arith, bytes-cmp_refl s)

pub pair-cmp_flip : (x y : ℕ × Bytes) → pair_cmp x y ≡ Ordering.gt → pair_cmp y x ≡ Ordering.lt
pair-cmp_flip (a, s) (b, t) h = ground (arith, bytes-cmp_flip s t)

pub pair-cmp_trans :
    (x y z : ℕ × Bytes)
    → pair_cmp x y ≡ Ordering.lt
    → pair_cmp y z ≡ Ordering.lt
    → pair_cmp x z ≡ Ordering.lt
pair-cmp_trans (a, s) (b, t) (c, u) p q = ground (arith, bytes-cmp_trans s t u)

instance abbrev pub pair_key : Key (ℕ × Bytes)
pair_key = record {
  cmp = pair_cmp;
  cmp_eq = pair-cmp_eq;
  cmp_refl = pair-cmp_refl;
  cmp_flip = pair-cmp_flip;
  cmp_trans = pair-cmp_trans;
}
