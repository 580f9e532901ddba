-- ===== src/ArrayQueue.antt =====
-- What the kernel relies on of `crossbeam_queue::ArrayQueue`: a bounded queue, first in first out,
-- whose `push` fails when it is full and whose `pop` fails when it is empty.
pub mod Bounded
use riptide.Prelude.{
  ℕ, ◌≡◌, arith, Bool, Option, none, some, true, false, List, [], ◌∷◌, ◌++◌, length, ltb,
  if◌then◌else◌,
}
use mathlib.Core.Option

abbrev pub uncons : {A : Type 0} → List A → Option (A × List A)
uncons [] = none
uncons (a ∷ rest) = some (a, rest)

abbrev pub null : {A : Type 0} → List A → Bool
null [] = true
null (a ∷ rest) = false

pub record ArrayQueue (A : Type 0) : Type 1 where
  pub Queue : Type 0
  pub new : Queue
  pub push : A → Queue → Option Queue
  pub pop : Queue → Option (A × Queue)
  -- the elements, oldest first
  pub to_list : Queue → List A
  pub is_empty : Queue → Bool
  pub capacity : ℕ
  pub to_list-new : to_list new ≡ []
  pub to_list-push :
      (a : A) (q : Queue)
      → Option.map to_list (push a q)
        ≡ (if ltb (length (to_list q)) capacity then some (to_list q ++ a ∷ []) else none)
  pub to_list-pop :
      (q : Queue) → Option.map (λ (r : A × Queue). (r.0, to_list r.1)) (pop q) ≡ uncons (to_list q)
  pub is_empty-null : (q : Queue) → is_empty q ≡ null (to_list q)

-- What a push says of the room in the queue.
module _ (Q : ArrayQueue ℕ) (a : ℕ) (q : Q.Queue) where
  pub push-none : Q.push a q ≡ none → ltb (length (Q.to_list q)) Q.capacity ≡ false
  push-none e = ground (arith, Q.to_list-push a q, e)

  pub push-some :
      (p : Q.Queue)
      → Q.push a q ≡ some p
      → (ltb (length (Q.to_list q)) Q.capacity ≡ true) × (Q.to_list p ≡ Q.to_list q ++ a ∷ [])
  push-some p e = (ground (arith, Q.to_list-push a q, e), ground (arith, Q.to_list-push a q, e))
