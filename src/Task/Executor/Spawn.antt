-- ===== src/Task/Executor/Spawn.antt =====
-- A new task: it gets an id that no task has, and goes to the end of the queue.
use riptide.Prelude.{
  ℕ, ◌+◌, ◌<◌, ◌^◌, ◌≡◌, refl, ◌∙◌, none, some, [], ◌∷◌, ◌++◌, length, arith, Option-cases, inl,
  inr,
}
use riptide.BTreeMap.{lookup, insert, lookup-insert, lookup-insert_self}
use riptide.BTreeMap.Keys.{nat_key}
use riptide.Fs.State.{Act, ok, ◌>>=◌, bump}
use riptide.Fs.State.Keeps.{bind-ok}
use riptide.ArrayQueue.{ArrayQueue}
use riptide.Task.{Runtime}
use riptide.Task.Executor.{State, spawn, new_task}
use riptide.Task.Executor.Steps.{pending, wake_task-room}
use riptide.Task.Executor.Wakers.{WellFormed}

module _ (R : Runtime) (Q : ArrayQueue ℕ) where
  -- `spawn(Task::new(future))`
  abbrev pub spawn_new : R.Future → Act (State R Q) (Unit {0})
  spawn_new f = new_task R Q >>= λ id. spawn R Q id f

  fresh : (s : State R Q) → WellFormed R Q s → lookup s.next_task_id s.tasks ≡ none
  fresh s h = elim (Option-cases (lookup s.next_task_id s.tasks)) [
    | inl e ↦ e
    | inr e ↦ absurd (ground (arith, h.below s.next_task_id, e.1))
  ]

  bump_lem : (n : ℕ) → n + 1 < 2 ^ 64 → bump n ≡ n + 1
  bump_lem n h = omega arith

  spawn_room :
      (id : ℕ) (f : R.Future) (s : State R Q)
      → lookup id s.tasks ≡ none
      → length (pending R Q s) < Q.capacity
      → (q : Q.Queue) × (spawn R Q id f s
          ≡ (ok tt, record s { tasks = insert id f s.tasks; task_queue = q }))
        × (Q.to_list q ≡ pending R Q s ++ id ∷ [])
  unfolding spawn ◌>>=◌
  spawn_room id f s free room =
      let woke = wake_task-room R Q id (record s { tasks = insert id f s.tasks }) room in
      (woke.0, rw free woke.1, woke.2)

  spawned-WellFormed :
      (f : R.Future) (q : Q.Queue) (s : State R Q)
      → WellFormed R Q s
      → s.next_task_id + 1 < 2 ^ 64
      → WellFormed R Q (record s {
        tasks = insert s.next_task_id f s.tasks;
        task_queue = q;
        next_task_id = bump s.next_task_id;
      })
  spawned-WellFormed f q s h small = record {
    own = h.own;
    there = λ j w e. ground (arith, lookup-insert j s.next_task_id f s.tasks, h.there j w, e);
    below = λ j e. ground (
      arith,
      lookup-insert j s.next_task_id f s.tasks,
      nat_key.cmp_eq j s.next_task_id,
      h.below j,
      bump_lem s.next_task_id small,
      e,
    );
  }

  -- While task ids do not wrap and the queue has room, spawning a new task returns: no task has its
  -- id, the task is there behind it and last in the queue, and the executor is well-formed again.
  pub spawn_new-returns :
      (f : R.Future) (s : State R Q)
      → WellFormed R Q s
      → s.next_task_id + 1 < 2 ^ 64
      → length (pending R Q s) < Q.capacity
      → (s2 : State R Q) × (spawn_new f s ≡ (ok tt, s2))
        × (lookup s.next_task_id s.tasks ≡ none)
        × (lookup s.next_task_id s2.tasks ≡ some f)
        × (pending R Q s2 ≡ pending R Q s ++ s.next_task_id ∷ [])
        × WellFormed R Q s2
        × (s2.tasks ≡ insert s.next_task_id f s.tasks)
  unfolding new_task
  spawn_new-returns f s h small room =
      let id = s.next_task_id in
      let r = spawn_room id f (record s { next_task_id = bump id }) (fresh s h) room in
      (
        record s { tasks = insert id f s.tasks; task_queue = r.0; next_task_id = bump id },
        bind-ok (new_task R Q) (λ id. spawn R Q id f) s refl ∙ r.1,
        fresh s h,
        lookup-insert_self id f s.tasks,
        r.2,
        spawned-WellFormed f r.0 s h small,
        refl,
      )
