-- ===== src/Task/Tests.antt =====
-- The executor run on two tasks: one that is woken once more by its own first poll, one that is
-- ready at once.
use riptide.Prelude.{
  ℕ, zero, suc, ◌+◌, ◌<◌, ◌≤◌, ◌≡◌, ◌≢◌, refl, Bool, true, false, List, [], ◌∷◌, ◌++◌, length,
  arith, if◌then◌else◌, All,
}
use riptide.BTreeMap.{lookup, insert, remove}
use riptide.BTreeMap.Keys.{nat_key}
use riptide.Fs.State.{ok, pure, ◌>>=◌}
use riptide.Fs.Registry.{is_some}
use riptide.ArrayQueue.{ArrayQueue}
use riptide.ArrayQueue.Bounded.{bounded}
use riptide.Task.{Runtime, Polled}
use riptide.Task.Executor.{
  State, visit, wake_task, wake_all, poll_task, waker_of, run_next, run_ready_tasks,
}
use riptide.Task.Executor.Steps.{pending}
use riptide.Task.Executor.Ends.{Budget, run_ready_tasks-ends, run_ready_tasks-serves}
use riptide.Task.Executor.Wakers.{WellFormed, run_ready_tasks-keeps}

-- A future is how often it still yields; the world counts the wake-ups that are left.
abbrev yielding : ℕ → ℕ → ℕ → Polled ℕ ℕ
yielding id (suc n) (suc w) = record { ready = false; future = n; world = w; woken = id ∷ [] }
yielding id zero w = record { ready = true; future = zero; world = w; woken = [] }
yielding id (suc n) zero = record { ready = false; future = suc n; world = zero; woken = [] }

abbrev yields : Runtime
yields = record { Future = ℕ; World = ℕ; poll = yielding }

yielding-paid : (id f w : ℕ) → length (yielding id f w).woken + (yielding id f w).world ≤ w
yielding-paid id (suc n) (suc w) = omega arith
yielding-paid id zero w = omega arith
yielding-paid id (suc n) zero = omega arith

abbrev wake_ups : Budget yields
wake_ups = record { left = λ w. w; paid = yielding-paid }

abbrev queue : ArrayQueue ℕ
queue = bounded 100

-- Two tasks that were spawned.
abbrev two_tasks : State yields queue
two_tasks = record {
  tasks = (0, 1) ∷ (1, 0) ∷ [];
  task_queue = 0 ∷ 1 ∷ [];
  waker_cache = [];
  world = 1;
  next_task_id = 2;
}

abbrev no_tasks : State yields queue
no_tasks = record { tasks = []; task_queue = []; waker_cache = []; world = 1; next_task_id = 2 }

run_ready_tasks-ends_example :
    (s2 : State yields queue) × (run_ready_tasks yields queue 4 two_tasks ≡ (ok true, s2))
    × (pending yields queue s2 ≡ [])
run_ready_tasks-ends_example =
    run_ready_tasks-ends yields queue wake_ups 4 two_tasks (omega arith) (omega arith)

run_ready_tasks-serves_example :
    (s2 : State yields queue) × (more : List ℕ) × (pending yields queue s2 ≡ [] ++ more)
    × (run_ready_tasks yields queue (length {A = ℕ} (0 ∷ []) + suc 2) two_tasks
        ≡ (visit yields queue 1 >>= λ (done : Bool).
              if done then pure true else run_ready_tasks yields queue 2)
            s2)
    × (All (λ (j : ℕ). 1 ≢ j) (0 ∷ []) → lookup 1 s2.tasks ≡ lookup 1 two_tasks.tasks)
run_ready_tasks-serves_example =
    run_ready_tasks-serves yields queue wake_ups (0 ∷ []) 1 [] 2 two_tasks (omega arith) refl

no_tasks-WellFormed : WellFormed yields queue no_tasks
unfolding lookup
no_tasks-WellFormed = record {
  own = λ id w e. absurd (ground (arith, e));
  there = λ id w e. absurd (ground (arith, e));
  below = λ id e. absurd (ground (arith, e));
}

two_tasks-below : (id : ℕ) → is_some (lookup id two_tasks.tasks) ≡ true → id < 2
unfolding lookup
two_tasks-below zero e = omega arith
two_tasks-below (suc zero) e = omega arith
two_tasks-below (suc (suc n)) e = absurd (ground (arith, e))

two_tasks-WellFormed : WellFormed yields queue two_tasks
unfolding lookup
two_tasks-WellFormed = record {
  own = λ id w e. absurd (ground (arith, e));
  there = λ id w e. absurd (ground (arith, e));
  below = two_tasks-below;
}

-- Behind the run: nothing is left.
abbrev all_done : State yields queue
all_done = record { tasks = []; task_queue = []; waker_cache = []; world = 0; next_task_id = 2 }

two_tasks-run : run_ready_tasks yields queue 4 two_tasks ≡ (ok true, all_done)
unfolding run_ready_tasks run_next visit poll_task waker_of wake_all wake_task lookup insert remove
    ◌>>=◌
two_tasks-run = refl

run_ready_tasks-keeps_example : WellFormed yields queue all_done
run_ready_tasks-keeps_example =
    run_ready_tasks-keeps yields queue 4 two_tasks all_done true two_tasks-WellFormed two_tasks-run

-- An interrupt wakes task 7 when `run_ready_tasks` has returned.
abbrev one_woken : State yields queue
one_woken = record no_tasks { task_queue = 7 ∷ [] }

woken : wake_task yields queue 7 no_tasks ≡ (ok tt, one_woken)
unfolding wake_task ◌>>=◌
woken = refl
