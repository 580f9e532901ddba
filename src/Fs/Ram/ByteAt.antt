-- ===== src/Fs/Ram/ByteAt.antt =====
-- Sequences of bytes as `ReadWrite` looks at them: one byte at a time, with 0 past the end.
use riptide.Prelude.{drop-length_append}
use riptide.Prelude.{
  ℕ, zero, suc, ◌+◌, ◌-◌, ◌≤◌, ◌<◌, ◌≡◌, refl, sym, ap, ◌∙◌, [], ◌∷◌, ◌++◌, Bytes, arith, length,
  take, drop, replicate, length-take,
}

-- The byte at an index; 0 past the end.
pub byte_at : Bytes → ℕ → ℕ
byte_at [] i = 0
byte_at (c ∷ s) zero = c
byte_at (c ∷ s) (suc i) = byte_at s i

pub byte_at-append_left :
    (xs ys : Bytes) (i : ℕ) → i < length xs → byte_at (xs ++ ys) i ≡ byte_at xs i
unfolding byte_at
byte_at-append_left [] ys i h = absurd (omega arith)
byte_at-append_left (x ∷ xs) ys zero h = refl
byte_at-append_left (x ∷ xs) ys (suc i) h = byte_at-append_left xs ys i (omega arith)

pub byte_at-append_right :
    (xs ys : Bytes) (i : ℕ) → length xs ≤ i → byte_at (xs ++ ys) i ≡ byte_at ys (i - length xs)
unfolding byte_at
byte_at-append_right [] ys i h = ap (byte_at ys) (omega arith)
byte_at-append_right (x ∷ xs) ys zero h = absurd (omega arith)
byte_at-append_right (x ∷ xs) ys (suc i) h =
    let e : i - length xs ≡ suc i - suc (length xs) = omega arith in
    byte_at-append_right xs ys i (omega arith) ∙ ap (byte_at ys) e

pub byte_at-take : (n : ℕ) (xs : Bytes) (i : ℕ) → i < n → byte_at (take n xs) i ≡ byte_at xs i
unfolding byte_at
byte_at-take zero xs i h = absurd (omega arith)
byte_at-take (suc n) [] i h = refl
byte_at-take (suc n) (x ∷ xs) zero h = refl
byte_at-take (suc n) (x ∷ xs) (suc i) h = byte_at-take n xs i (omega arith)

pub byte_at-drop : (n : ℕ) (xs : Bytes) (i : ℕ) → byte_at (drop n xs) i ≡ byte_at xs (n + i)
unfolding byte_at
byte_at-drop zero xs i = ap (byte_at xs) (omega arith)
byte_at-drop (suc n) [] i = refl
byte_at-drop (suc n) (x ∷ xs) i =
    byte_at-drop n xs i
    ∙ sym (let e : suc n + i ≡ suc (n + i) = omega arith in ap (byte_at (x ∷ xs)) e)

pub byte_at_beyond : (xs : Bytes) (i : ℕ) → length xs ≤ i → byte_at xs i ≡ 0
unfolding byte_at
byte_at_beyond [] i h = refl
byte_at_beyond (x ∷ xs) zero h = absurd (omega arith)
byte_at_beyond (x ∷ xs) (suc i) h = byte_at_beyond xs i (omega arith)

pub byte_at-replicate : (n i : ℕ) → byte_at (replicate n 0) i ≡ 0
unfolding byte_at
byte_at-replicate zero i = refl
byte_at-replicate (suc n) zero = refl
byte_at-replicate (suc n) (suc i) = byte_at-replicate n i

pub drop-take_append : (n : ℕ) (xs ys : Bytes) → n ≤ length xs → drop n (take n xs ++ ys) ≡ ys
drop-take_append n xs ys h =
    let len : n ≡ length (take n xs) = omega (arith, length-take n xs) in
    ap (λ k. drop k (take n xs ++ ys)) len ∙ drop-length_append (take n xs) ys

pub drop-all : (n : ℕ) (xs : Bytes) → length xs ≤ n → drop n xs ≡ []
drop-all zero [] h = refl
drop-all zero (x ∷ xs) h = absurd (omega arith)
drop-all (suc n) [] h = refl
drop-all (suc n) (x ∷ xs) h = drop-all n xs (omega arith)

-- Texts of one length that agree at each index are the same.
pub same_bytes :
    (xs ys : Bytes) → length xs ≡ length ys → ((i : ℕ) → byte_at xs i ≡ byte_at ys i) → xs ≡ ys
unfolding byte_at
same_bytes [] [] n e = refl
same_bytes [] (y ∷ ys) n e = absurd (omega (arith, n))
same_bytes (x ∷ xs) [] n e = absurd (omega (arith, n))
same_bytes (x ∷ xs) (y ∷ ys) n e =
    ap (λ (z : ℕ). z ∷ xs) (e 0)
    ∙ ap (λ t. y ∷ t) (same_bytes xs ys (omega (arith, n)) λ i. e (suc i))
