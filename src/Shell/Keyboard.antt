-- ===== src/Shell/Keyboard.antt =====
-- The scancodes from the keyboard interrupt to the shell (kernel/src/shell/keyboard.rs).
pub mod Waker
pub mod Interrupted
pub mod Wakeups
pub mod Received
mod Tests
use riptide.Prelude.{
  ℕ, ◌≡◌, Bool, true, false, Option, none, some, List, [], ◌∷◌, ◌++◌, Bytes, codes, any, ◌==◌,
}
use riptide.Fs.State.{
  Act, Outcome, ok, pure, panics, gets, modify, ◌>>=◌, ◌>>◌, match_option, expect, assert,
}
use riptide.ArrayQueue.{ArrayQueue}
use riptide.Vga.{Writer, write_string, newline}
use Waker.{AtomicWaker}

-- The two statics, the executor's queue of task ids, which a waker pushes to, and the screen.
pub record Scancodes (Queue TaskQueue Cell : Type 0) : Type 0 where
  -- `SCANCODE_QUEUE`, behind its `OnceCell`
  pub scancode_queue : Option Queue
  -- `WAKER`
  pub waker : Cell
  pub task_queue : TaskQueue
  -- `WRITER` of kernel/src/vga.rs
  pub writer : Writer

-- What `poll_next` returns.
pub data Poll : Type 0 where
  ready : ℕ → Poll
  pending : Poll

module _ (Q T : ArrayQueue ℕ) (W : AtomicWaker) where
  abbrev pub State : Type 0
  State = Scancodes Q.Queue T.Queue W.Cell

  -- Before `ScancodeStream::new`.
  abbrev pub uninit : Writer → State
  uninit writer = record {
    scancode_queue = none;
    waker = W.new;
    task_queue = T.new;
    writer = writer;
  }

  unfoldable pub on_writer : Act Writer (Unit {0}) → Act State (Unit {0})
  on_writer m s = let r = m s.writer in (r.0, record s { writer = r.1 })

  -- `println!` of a warning
  unfoldable pub warn : Bytes → Act State (Unit {0})
  unfolding on_writer
  warn text = on_writer (write_string (text ++ newline ∷ []))

  -- `wake_task` of a waker of the executor: it panics where the queue of tasks is full
  unfoldable pub wake_task : ℕ → Act State (Unit {0})
  wake_task id = do
    queue ← gets (λ s. s.task_queue)
    pushed ← expect (T.push id queue)
    modify λ s. record s { task_queue = pushed }

  -- `WAKER.wake()`: it takes the waker, and wakes what it took
  unfoldable pub wake : Act State (Unit {0})
  unfolding wake_task
  wake = do
    taken ← gets (λ s. (W.take s.waker).0)
    modify λ s. record s { waker = (W.take s.waker).1 }
    match_option taken (pure tt) wake_task

  abbrev pub full_warning : Bytes
  full_warning = codes "WARNING: scancode queue full; dropping keyboard input"

  abbrev pub uninitialized_warning : Bytes
  uninitialized_warning = codes "WARNING: scancode queue uninitialized"

  -- `queue.push(scancode)`, and the wake-up
  unfoldable pub push_scancode : ℕ → Q.Queue → Act State (Unit {0})
  unfolding wake warn
  push_scancode scancode queue =
      match_option (Q.push scancode queue) (warn full_warning)
        λ q. do modify λ s. record s { scancode_queue = some q }; wake

  -- `add_scancode`
  unfoldable pub add_scancode : ℕ → Act State (Unit {0})
  unfolding push_scancode warn
  add_scancode scancode = do
    queue ← gets (λ s. s.scancode_queue)
    match_option queue (warn uninitialized_warning) (push_scancode scancode)

  abbrev is_none : Option Q.Queue → Bool
  is_none none = true
  is_none (some q) = false

  -- `ScancodeStream::new`; the capacity of the queue, 100 there, is that of the parameter
  unfoldable pub new_stream : Act State (Unit {0})
  new_stream = do
    free ← gets (λ s. is_none s.scancode_queue)
    assert free
    modify λ s. record s { scancode_queue = some Q.new }

  -- `queue.pop()`, behind `try_get().expect(...)`
  unfoldable pub pop_scancode : Act State (Option ℕ)
  pop_scancode = do
    cell ← gets (λ s. s.scancode_queue)
    queue ← expect cell
    match_option (Q.pop queue) (pure none)
        λ r. do modify λ s. record s { scancode_queue = some r.1 }; pure (some r.0)

  -- `WAKER.register(cx.waker())`, for the task `id`
  unfoldable pub register : ℕ → Act State (Unit {0})
  register id = modify λ s. record s { waker = W.register id s.waker }

  -- `WAKER.take()`
  unfoldable pub take_waker : Act State (Unit {0})
  take_waker = modify λ s. record s { waker = (W.take s.waker).1 }

  -- What follows the second `pop`.
  unfoldable pub second_pop : Option ℕ → Act State Poll
  unfolding take_waker
  second_pop none = pure pending
  second_pop (some scancode) = do take_waker; pure (ready scancode)

  -- What follows the first `pop`.
  unfoldable pub first_pop : ℕ → Option ℕ → Act State Poll
  unfolding register pop_scancode second_pop
  first_pop id (some scancode) = pure (ready scancode)
  first_pop id none = do register id; again ← pop_scancode; second_pop again

  -- `poll_next`, polled by the task `id`, with no interrupt in between
  unfoldable pub poll_next : ℕ → Act State Poll
  unfolding pop_scancode first_pop
  poll_next id = do first ← pop_scancode; first_pop id first
