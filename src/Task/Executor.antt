-- ===== src/Task/Executor.antt =====
-- The executor (kernel/src/task/executor.rs).
pub mod Steps
pub mod Ends
pub mod Wakers
pub mod Spawn
pub mod Idle
use riptide.Prelude.{
  ℕ, zero, suc, ◌+◌, Bool, true, false, Option, none, some, List, [], ◌∷◌, if◌then◌else◌,
}
use riptide.BTreeMap.{Map, lookup, insert, remove}
use riptide.BTreeMap.Keys.{nat_key}
use riptide.Fs.State.{
  Act, ok, pure, panics, gets, modify, ◌>>=◌, ◌>>◌, assert, match_option, expect, bump,
}
use riptide.Fs.Registry.{is_some}
use riptide.Prelude.{not}
use riptide.ArrayQueue.{ArrayQueue}
use riptide.Task.{Runtime, Polled}

-- `struct Executor`, what the futures work on, and the counter of `TaskId::new`. A waker is the id
-- in its `TaskWaker`; the queue is behind an `Arc` that the executor and its wakers share.
pub record Executor (Future World Queue : Type 0) : Type 0 where
  pub tasks : Map ℕ Future
  pub task_queue : Queue
  pub waker_cache : Map ℕ ℕ
  pub world : World
  pub next_task_id : ℕ

module _ (R : Runtime) (Q : ArrayQueue ℕ) where
  abbrev pub State : Type 0
  State = Executor R.Future R.World Q.Queue

  -- `Executor::new`; the capacity of the queue, 100 there, is that of the parameter
  abbrev pub new_executor : R.World → State
  new_executor world = record {
    tasks = [];
    task_queue = Q.new;
    waker_cache = [];
    world = world;
    next_task_id = 0;
  }

  -- `Task::new`
  unfoldable pub new_task : Act State ℕ
  new_task s = (ok s.next_task_id, record s { next_task_id = bump s.next_task_id })

  -- `wake_task`, and the push in `spawn`
  unfoldable pub wake_task : ℕ → Act State (Unit {0})
  wake_task id = do
    pushed ← gets (λ s. Q.push id s.task_queue)
    queue ← expect pushed
    modify λ s. record s { task_queue = queue }

  -- `spawn`
  unfoldable pub spawn : ℕ → R.Future → Act State (Unit {0})
  unfolding wake_task
  spawn id future = do
    there ← gets (λ s. is_some (lookup id s.tasks))
    modify λ s. record s { tasks = insert id future s.tasks }
    assert (not there)
    wake_task id

  -- The wakers that a poll called.
  unfoldable pub wake_all : List ℕ → Act State (Unit {0})
  wake_all [] = pure tt
  wake_all (id ∷ ids) = do wake_task id; wake_all ids

  -- `waker_cache.entry(task_id).or_insert_with(|| TaskWaker::create(...))`
  unfoldable pub waker_of : ℕ → Act State ℕ
  waker_of id = do
    cached ← gets (λ s. lookup id s.waker_cache)
    match_option cached
        (do modify λ s. record s { waker_cache = insert id id s.waker_cache }; pure id) pure

  -- `Poll::Ready`
  abbrev pub finish : ℕ → State → State
  finish id s = record s { tasks = remove id s.tasks; waker_cache = remove id s.waker_cache }

  -- `task.poll(&mut context)`, and what follows it
  unfoldable pub poll_task : ℕ → R.Future → Act State (Unit {0})
  poll_task id future = do
    waker ← waker_of id
    polled ← gets (λ s. R.poll waker future s.world)
    modify λ s. record s { tasks = insert id polled.future s.tasks; world = polled.world }
    wake_all polled.woken
    if polled.ready then modify (finish id) else pure tt

  -- The rest of a round, for the id that was popped: a task that is gone is passed over.
  unfoldable pub visit : ℕ → Act State Bool
  visit id = do
    task ← gets (λ s. lookup id s.tasks)
    match_option task (pure tt) (poll_task id)
    pure false

  -- One round of the loop of `run_ready_tasks`; `true` if the queue is empty and the loop ends.
  unfoldable pub run_next : Act State Bool
  run_next = do
    popped ← gets (λ s. Q.pop s.task_queue)
    match_option popped (pure true) λ r. do modify λ s. record s { task_queue = r.1 }; visit r.0

  -- `run_ready_tasks`; `false` means that the fuel ran out.
  unfoldable pub run_ready_tasks : ℕ → Act State Bool
  run_ready_tasks zero = pure false
  run_ready_tasks (suc fuel) = do
    done ← run_next
    let rest = run_ready_tasks fuel
    if done then pure true else rest
