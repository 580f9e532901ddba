-- ===== src/Shell/Keyboard/Waker.antt =====
-- What the keyboard relies on of `futures_util::task::AtomicWaker`: a cell for the waker that was
-- registered last, which `take` and `wake` empty.
use riptide.Prelude.{ℕ, ◌≡◌, refl, Option, none, some}

pub record AtomicWaker : Type 1 where
  pub Cell : Type 0
  pub new : Cell
  pub register : ℕ → Cell → Cell
  pub take : Cell → Option ℕ × Cell
  pub registered : Cell → Option ℕ
  pub registered-new : registered new ≡ none
  pub registered-register : (id : ℕ) (c : Cell) → registered (register id c) ≡ some id
  pub take-registered : (c : Cell) → (take c).0 ≡ registered c
  pub registered-take : (c : Cell) → registered (take c).1 ≡ none

-- A cell that keeps the laws.
abbrev pub option_waker : AtomicWaker
option_waker = record {
  Cell = Option ℕ;
  new = none;
  register = λ id c. some id;
  take = λ c. (c, none);
  registered = λ c. c;
  registered-new = refl;
  registered-register = λ id c. refl;
  take-registered = λ c. refl;
  registered-take = λ c. refl;
}
