-- ===== src/Shell/Parser/Scan.antt =====
-- The loop of `Parser::next` with the token's bytes in place of the two positions.
use riptide.Prelude.{
  ℕ, zero, suc, ◌+◌, ◌-◌, ◌≤◌, ◌≡◌, refl, ap, ◌∙◌, Bool, true, Option, none, some, [], ◌∷◌, ◌++◌,
  Bytes, take, drop, ltb, ◌==◌, if◌then◌else◌, arith, length, length-drop, length-take, not,
}
use riptide.Shell.Parser.{quote, is_blank, slice, next_loop, is_empty}

-- `w` is what the loop has gathered so far.
unfoldable pub scan : Bytes → Bytes → ℕ → Bool → Option Bytes × ℕ
scan [] w position s = if is_empty w then (none, position) else (some w, position)
scan (c ∷ rest) w position s =
    let open_string = scan rest [] (position + 1) true in
    let munch = scan rest (w ++ c ∷ []) (position + 1) s in
    let skip_blank = scan rest [] (position + 1) s in
    if c == quote
    then if s
      then (some w, position + 1)
      else if is_empty w
      then open_string
      else (some w, position)
    else if is_blank c
    then if s then munch else if is_empty w then skip_blank else (some w, position + 1)
    else munch

take-snoc :
    (n : ℕ) (xs : Bytes) (c : ℕ) (rest : Bytes)
    → drop n xs ≡ c ∷ rest
    → take (suc n) xs ≡ take n xs ++ c ∷ []
take-snoc zero [] c rest h = ground arith
take-snoc zero (x ∷ xs) c rest h = ground arith
take-snoc (suc n) [] c rest h = ground arith
take-snoc (suc n) (x ∷ xs) c rest h = ap (λ t. x ∷ t) (take-snoc n xs c rest h)

drop-suc :
    (n : ℕ) (xs : Bytes) (c : ℕ) (rest : Bytes) → drop n xs ≡ c ∷ rest → drop (suc n) xs ≡ rest
drop-suc zero [] c rest h = ground arith
drop-suc zero (x ∷ xs) c rest h = ground arith
drop-suc (suc n) [] c rest h = ground arith
drop-suc (suc n) (x ∷ xs) c rest h = drop-suc n xs c rest h

pub drop-drop : (n m k : ℕ) (xs : Bytes) → m + n ≡ k → drop n (drop m xs) ≡ drop k xs
drop-drop n zero k xs h = let e : n ≡ k = omega arith in ap (λ i. drop i xs) e
drop-drop zero (suc m) zero [] h = refl
drop-drop zero (suc m) (suc k) [] h = refl
drop-drop (suc n) (suc m) zero [] h = refl
drop-drop (suc n) (suc m) (suc k) [] h = refl
drop-drop n (suc m) zero (x ∷ xs) h = absurd (omega arith)
drop-drop n (suc m) (suc k) (x ∷ xs) h = drop-drop n m k xs (omega arith)

-- A slice that grows by the byte behind it.
slice_grow :
    (input rest : Bytes) (start position c : ℕ)
    → start ≤ position
    → drop position input ≡ c ∷ rest
    → slice input start (position + 1 - start) ≡ slice input start (position - start) ++ c ∷ []
slice_grow input rest start position c le e =
    let shift : position + 1 - start ≡ suc (position - start) = omega arith in
    ap (λ k. slice input start k) shift
    ∙ take-snoc (position - start) (drop start input) c rest
        (drop-drop (position - start) start position input (omega arith) ∙ e)

pub slice_empty :
    (input : Bytes) (start position : ℕ)
    → position ≤ start
    → slice input start (position - start) ≡ []
slice_empty input start position le =
    let none_left : position - start ≡ 0 = omega arith in ap (λ k. slice input start k) none_left

is_empty-length : (xs : Bytes) → is_empty xs ≡ (length xs == 0)
is_empty-length [] = refl
is_empty-length (x ∷ xs) = ground arith

-- A slice inside the input is empty exactly if its bounds meet.
is_empty-slice :
    (input : Bytes) (start position : ℕ)
    → start ≤ position
    → position ≤ length input
    → is_empty (slice input start (position - start)) ≡ not (ltb start position)
is_empty-slice input start position le fit = ground (
  arith,
  is_empty-length (slice input start (position - start)),
  length-take (position - start) (drop start input),
  length-drop start input,
)

pub next_loop-eq-scan :
    (input rest : Bytes) (start position : ℕ) (s : Bool)
    → start ≤ position
    → position ≤ length input
    → drop position input ≡ rest
    → next_loop input rest start position s
      ≡ scan rest (slice input start (position - start)) position s
unfolding next_loop scan
next_loop-eq-scan input [] start position s le fit e =
    ground (arith, is_empty-slice input start position le fit)
next_loop-eq-scan input (c ∷ rest) start position s le fit e = ground (
  arith,
  is_empty-slice input start position le fit,
  slice_grow input rest start position c le e,
  slice_empty input start position,
  slice_empty input (start + 1) (position + 1),
  slice_empty input (position + 1) (position + 1),
  next_loop-eq-scan input rest (start + 1) (position + 1) true,
  next_loop-eq-scan input rest (position + 1) (position + 1) s,
  next_loop-eq-scan input rest start (position + 1) s,
  drop-suc position input c rest e,
  length-drop position input,
)
