-- ===== src/Task.antt =====
-- Tasks (kernel/src/task/mod.rs, kernel/src/task/executor.rs).
pub mod Executor
mod Tests
use riptide.Prelude.{ℕ, Bool, List}

-- What the executor runs: the futures, the rest of the kernel's state that they work on, and what a
-- poll does: whether it is `Ready`, the future behind it, the state behind it, and the ids that the
-- wakers it called have. The first argument of `poll` is the id of the waker in the context.
pub record Polled (Future World : Type 0) : Type 0 where
  pub ready : Bool
  pub future : Future
  pub world : World
  pub woken : List ℕ

pub record Runtime : Type 1 where
  pub Future : Type 0
  pub World : Type 0
  pub poll : ℕ → Future → World → Polled Future World
