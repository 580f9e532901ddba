-- ===== src/Task/Executor/Wakers.antt =====
-- The waker of each task is its own, and no waker or id outlives its task.
use riptide.Prelude.{
  ℕ, zero, suc, ◌<◌, ◌≡◌, Bool, true, false, Option, none, some, List, [], ◌∷◌, arith,
}
use riptide.BTreeMap.{lookup, insert, lookup-insert, lookup-remove}
use riptide.BTreeMap.Keys.{nat_key}
use mathlib.Core.Path.{subst}
use riptide.Fs.State.{ok, pure, gets, modify, ◌>>=◌, ◌>>◌, match_option, expect}
use riptide.Fs.Registry.{is_some}
use riptide.Fs.State.Keeps.{
  Triple, Keeps, Holds, Keeps-pure, Keeps-gets, Keeps-bind, Keeps-expect, Keeps-modify, Triple-bind,
  Keeps-if, Keeps-option, Triple-weaken, Triple-gets, Triple-modify, Triple-pure,
}
use riptide.ArrayQueue.{ArrayQueue}
use riptide.Task.{Runtime, Polled}
use riptide.Task.Executor.{
  State, wake_task, wake_all, waker_of, finish, poll_task, visit, run_next, run_ready_tasks,
}

module _ (R : Runtime) (Q : ArrayQueue ℕ) where
  -- A cached waker wakes the task that it is cached for, that task is there, and the ids in use are
  -- below the next one.
  pub record WellFormed (s : State R Q) : Type 0 where
    pub own : (id w : ℕ) → lookup id s.waker_cache ≡ some w → w ≡ id
    pub there : (id w : ℕ) → lookup id s.waker_cache ≡ some w → is_some (lookup id s.tasks) ≡ true
    pub below : (id : ℕ) → is_some (lookup id s.tasks) ≡ true → id < s.next_task_id

  -- The task `id` is there besides.
  abbrev Running : ℕ → State R Q → Type 0
  Running id s = WellFormed s × (is_some (lookup id s.tasks) ≡ true)

  queue_kept :
      (q : Q.Queue) (s : State R Q) → WellFormed s → WellFormed (record s { task_queue = q })
  queue_kept q s h = record { own = h.own; there = h.there; below = h.below }

  Keeps-wake_task : (id : ℕ) → Keeps WellFormed (wake_task R Q id)
  unfolding wake_task
  Keeps-wake_task id = Keeps-bind _ _ (Keeps-gets (λ s. Q.push id s.task_queue)) (λ pushed.
      Keeps-bind (expect pushed) _ (Keeps-expect pushed) (λ q. Keeps-modify _ (queue_kept q)))

  Keeps-wake_all : (ids : List ℕ) → Keeps WellFormed (wake_all R Q ids)
  unfolding wake_all
  Keeps-wake_all [] = Keeps-pure tt
  Keeps-wake_all (id ∷ ids) =
      Keeps-bind (wake_task R Q id) _ (Keeps-wake_task id) (λ _. Keeps-wake_all ids)

  waker_kept :
      (id : ℕ) (s : State R Q)
      → Running id s
      → Running id (record s { waker_cache = insert id id s.waker_cache })
  waker_kept id s h = (
    record {
      own = λ j w e.
          ground (arith, lookup-insert j id id s.waker_cache, nat_key.cmp_eq j id, h.0.own j w, e);
      there = λ j w e.
          ground (
            arith,
            lookup-insert j id id s.waker_cache,
            nat_key.cmp_eq j id,
            h.0.there j w,
            h.1,
            e,
          );
      below = h.0.below;
    },
    h.1,
  )

  Keeps-waker_of : (id : ℕ) → Keeps (Running id) (waker_of R Q id)
  unfolding waker_of
  Keeps-waker_of id =
      Keeps-bind _ _ (Keeps-gets (λ s. lookup id s.waker_cache)) (λ cached. go cached)
    where
      go :
          (o : Option ℕ)
          → Keeps (Running id) (
              match_option o
                (do
                  modify λ (s : State R Q). record s { waker_cache = insert id id s.waker_cache }
                  pure id)
                pure)
      go none =
          Keeps-bind
            (modify λ (s : State R Q). record s { waker_cache = insert id id s.waker_cache })
            (λ _. pure id) (Keeps-modify _ (waker_kept id)) (λ _. Keeps-pure id)
      go (some w) = Keeps-pure w

  polled_kept :
      (id : ℕ) (p : Polled R.Future R.World) (s : State R Q)
      → Running id s
      → WellFormed (record s { tasks = insert id p.future s.tasks; world = p.world })
  polled_kept id p s h = record {
    own = h.0.own;
    there = λ j w e. ground (arith, lookup-insert j id p.future s.tasks, h.0.there j w e);
    below = λ j e. ground (
      arith,
      lookup-insert j id p.future s.tasks,
      nat_key.cmp_eq j id,
      h.0.below j,
      h.0.below id h.1,
      e,
    );
  }

  finish_kept : (id : ℕ) (s : State R Q) → WellFormed s → WellFormed (finish R Q id s)
  finish_kept id s h = record {
    own = λ j w e. ground (arith, lookup-remove j id s.waker_cache, h.own j w, e);
    there = λ j w e.
        ground
          (arith, lookup-remove j id s.waker_cache, lookup-remove j id s.tasks, h.there j w, e);
    below = λ j e. ground (arith, lookup-remove j id s.tasks, h.below j, e);
  }

  Triple-poll_task :
      (id : ℕ) (f : R.Future)
      → Triple (Running id) WellFormed (poll_task R Q id f) (λ _. WellFormed)
  unfolding poll_task
  Triple-poll_task id f =
      Triple-bind (waker_of R Q id) _
        (Triple-weaken (waker_of R Q id) (λ s h. h) (λ s h. h.0) (λ w s h. h) (Keeps-waker_of id))
        (λ waker.
          Triple-bind (gets (λ (s : State R Q). R.poll waker f s.world)) _
            (Triple-weaken (gets (λ (s : State R Q). R.poll waker f s.world)) (λ s h. h)
              (λ s h. h.0) (λ w s h. h) (Keeps-gets (λ s. R.poll waker f s.world)))
            (λ polled.
              Triple-bind
                (modify λ (s : State R Q). record s {
                  tasks = insert id polled.future s.tasks;
                  world = polled.world;
                })
                _ (Triple-modify _ (polled_kept id polled))
                (λ _. Keeps-bind (wake_all R Q polled.woken) _ (Keeps-wake_all polled.woken) (λ _.
                  Keeps-if polled.ready (modify (finish R Q id)) (pure tt)
                    (Keeps-modify _ (finish_kept id)) (Keeps-pure tt)))))

  Keeps-visit : (id : ℕ) → Keeps WellFormed (visit R Q id)
  unfolding visit
  Keeps-visit id =
      Triple-bind (gets (λ (s : State R Q). lookup id s.tasks)) _
        (Triple-gets (λ (s : State R Q). lookup id s.tasks)) (λ task. go task)
    where
      go :
          (task : Option R.Future)
          → Triple
              (λ (s : State R Q). WellFormed s × (lookup id s.tasks ≡ task))
              WellFormed
              (match_option task (pure tt) (poll_task R Q id) >>= λ _. pure false)
              (λ _. WellFormed)
      go none =
          Triple-bind (pure tt) (λ _. pure false) (Triple-pure tt (λ s h. h.0))
            (λ _. Keeps-pure false)
      go (some f) =
          Triple-bind (poll_task R Q id f) (λ _. pure false)
            (Triple-weaken (poll_task R Q id f) (λ s h. (h.0, ground (arith, h.1))) (λ s h. h)
              (λ w s h. h) (Triple-poll_task id f))
            (λ _. Keeps-pure false)

  Keeps-run_next : Keeps WellFormed (run_next R Q)
  unfolding run_next
  Keeps-run_next =
      Keeps-bind (gets (λ (s : State R Q). Q.pop s.task_queue)) _
        (Keeps-gets (λ s. Q.pop s.task_queue))
        (λ popped. Keeps-option popped (pure true) _ (Keeps-pure true) (λ r.
          Keeps-bind (modify λ (s : State R Q). record s { task_queue = r.1 }) _
            (Keeps-modify _ (queue_kept r.1)) (λ _. Keeps-visit r.0)))

  Keeps-run_ready_tasks : (fuel : ℕ) → Keeps WellFormed (run_ready_tasks R Q fuel)
  unfolding run_ready_tasks
  Keeps-run_ready_tasks zero = Keeps-pure false
  Keeps-run_ready_tasks (suc fuel) = Keeps-bind (run_next R Q) _ Keeps-run_next (λ done.
      Keeps-if done (pure true) (run_ready_tasks R Q fuel) (Keeps-pure true)
        (Keeps-run_ready_tasks fuel))

  -- Whatever the polls do and however many rounds there are, where `run_ready_tasks` returns it has
  -- kept this: each cached waker wakes its own task, which is still there, and no task has an id from
  -- the next one on.
  pub run_ready_tasks-keeps :
      (fuel : ℕ) (s s2 : State R Q) (b : Bool)
      → WellFormed s
      → run_ready_tasks R Q fuel s ≡ (ok b, s2)
      → WellFormed s2
  run_ready_tasks-keeps fuel s s2 b h e =
      subst (Holds WellFormed (λ _. WellFormed)) e ((Keeps-run_ready_tasks fuel).at s h)
