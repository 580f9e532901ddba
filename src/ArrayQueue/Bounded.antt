-- ===== src/ArrayQueue/Bounded.antt =====
-- A queue that keeps the laws: a list.
use mathlib.Core.Option
use riptide.Prelude.{
  ℕ, ◌≡◌, refl, Bool, true, false, none, some, List, [], ◌∷◌, ◌++◌, length, ltb, if◌then◌else◌,
}
use riptide.ArrayQueue.{ArrayQueue, uncons, null}

pub push_lem :
    {A : Type 0} (b : Bool) (xs : List A)
    → Option.map (λ (ys : List A). ys) (if b then some xs else none) ≡ (if b then some xs else none)
push_lem true xs = refl
push_lem false xs = refl

pub pop_lem :
    {A : Type 0} (q : List A) → Option.map (λ (r : A × List A). (r.0, r.1)) (uncons q) ≡ uncons q
pop_lem [] = refl
pop_lem (a ∷ q) = refl

abbrev pub bounded : {A : Type 0} → ℕ → ArrayQueue A
bounded {A} n = record {
  Queue = List A;
  new = [];
  push = λ a q. if ltb (length q) n then some (q ++ a ∷ []) else none;
  pop = uncons;
  to_list = λ q. q;
  is_empty = null;
  capacity = n;
  to_list-new = refl;
  to_list-push = λ a q. push_lem (ltb (length q) n) (q ++ a ∷ []);
  to_list-pop = pop_lem;
  is_empty-null = λ q. refl;
}
