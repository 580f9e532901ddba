-- ===== src/Task/Executor/Steps.antt =====
-- The steps of the executor that return, and what they leave in its queue.
use riptide.Prelude.{◌≢◌}
use riptide.BTreeMap.{lookup-insert_ne, lookup-remove_ne}
use riptide.Prelude.{
  ℕ, ◌+◌, ◌≤◌, ◌<◌, ◌≡◌, refl, sym, ap, ◌∙◌, Bool, true, false, Option, none, some, List, [], ◌∷◌,
  ◌++◌, length, length-append, arith, if◌then◌else◌, append-nil, append_assoc, Option-cases, inl,
  inr,
}
use riptide.BTreeMap.{Map, lookup, insert}
use riptide.BTreeMap.Keys.{nat_key}
use riptide.Fs.State.{ok, pure, modify, ◌>>=◌, ◌>>◌, match_option}
use riptide.Fs.State.Keeps.{bind-ok}
use riptide.ArrayQueue.{ArrayQueue}
use riptide.Task.{Runtime, Polled}
use riptide.Task.Executor.{State, wake_task, wake_all, waker_of, finish, poll_task}

module _ (R : Runtime) (Q : ArrayQueue ℕ) where
  -- The ids in the queue, oldest first.
  abbrev pub pending : State R Q → List ℕ
  pending s = Q.to_list s.task_queue

  push_room :
      (id : ℕ) (q : Q.Queue)
      → length (Q.to_list q) < Q.capacity
      → (q2 : Q.Queue) × (Q.push id q ≡ some q2) × (Q.to_list q2 ≡ Q.to_list q ++ id ∷ [])
  push_room id q h = elim (Option-cases (Q.push id q)) [
    | inl e ↦ absurd (ground (arith, Q.to_list-push id q))
    | inr e ↦ (e.0, e.1, ground (arith, Q.to_list-push id q, e.1))
  ]

  pub wake_task-room :
      (id : ℕ) (s : State R Q)
      → length (pending s) < Q.capacity
      → (q : Q.Queue) × (wake_task R Q id s ≡ (ok tt, record s { task_queue = q }))
        × (Q.to_list q ≡ pending s ++ id ∷ [])
  unfolding wake_task ◌>>=◌
  wake_task-room id s h = let r = push_room id s.task_queue h in (r.0, rw r.1 refl, r.2)

  pub wake_all-room :
      (ids : List ℕ) (s : State R Q)
      → length (pending s) + length ids ≤ Q.capacity
      → (q : Q.Queue) × (wake_all R Q ids s ≡ (ok tt, record s { task_queue = q }))
        × (Q.to_list q ≡ pending s ++ ids)
  unfolding wake_all
  wake_all-room [] s h = (s.task_queue, unfold ◌>>=◌ in refl, sym (append-nil (pending s)))
  wake_all-room (id ∷ ids) s h =
      let one = wake_task-room id s (omega arith) in
      let rest =
        wake_all-room ids (record s { task_queue = one.0 })
          (omega (arith, ap length one.2, length-append (pending s) (id ∷ []))) in
      (
        rest.0,
        bind-ok (wake_task R Q id) (λ _. wake_all R Q ids) s one.1 ∙ rest.1,
        rest.2 ∙ ap (λ (xs : List ℕ). xs ++ ids) one.2 ∙ append_assoc (pending s) (id ∷ []) ids,
      )

  abbrev or_own : ℕ → Option ℕ → ℕ
  or_own id none = id
  or_own id (some w) = w

  -- The waker in the context of a poll.
  abbrev pub cached_waker : ℕ → State R Q → ℕ
  cached_waker id s = or_own id (lookup id s.waker_cache)

  waker_of_lem :
      (id : ℕ) (s : State R Q)
      → (c : Map ℕ ℕ) × (waker_of R Q id s ≡ (ok (cached_waker id s), record s { waker_cache = c }))
  unfolding waker_of ◌>>=◌
  waker_of_lem id s = go (lookup id s.waker_cache)
    where
      go :
          (o : Option ℕ)
          → (c : Map ℕ ℕ) × ((match_option o
                  (do modify λ s. record s { waker_cache = insert id id s.waker_cache }; pure id)
                  pure)
                s
              ≡ (ok (or_own id o), record s { waker_cache = c }))
      go none = (insert id id s.waker_cache, refl)
      go (some w) = (s.waker_cache, refl)

  abbrev polled_by : ℕ → R.Future → State R Q → Polled R.Future R.World
  polled_by id f s = R.poll (cached_waker id s) f s.world

  finish_if :
      (b : Bool) (id : ℕ) (s : State R Q)
      → (if b then modify (finish R Q id) else pure tt) s
        ≡ (ok tt, if b then finish R Q id s else s)
  unfolding ◌>>=◌
  finish_if true id s = refl
  finish_if false id s = refl

  finish_if-pending :
      (b : Bool) (id : ℕ) (s : State R Q)
      → (pending (if b then finish R Q id s else s) ≡ pending s)
        × ((if b then finish R Q id s else s).world ≡ s.world)
  finish_if-pending true id s = (refl, refl)
  finish_if-pending false id s = (refl, refl)

  finish_if-tasks :
      (b : Bool) (id : ℕ) (s : State R Q) (j : ℕ)
      → j ≢ id
      → lookup j (if b then finish R Q id s else s).tasks ≡ lookup j s.tasks
  finish_if-tasks true id s j ne = lookup-remove_ne j id s.tasks ne
  finish_if-tasks false id s j ne = refl

  -- A poll that leaves room for what it wakes returns, and adds that to the queue.
  pub poll_task-room :
      (id : ℕ) (f : R.Future) (s : State R Q)
      → length (pending s) + length (polled_by id f s).woken ≤ Q.capacity
      → (s2 : State R Q) × (poll_task R Q id f s ≡ (ok tt, s2))
        × (pending s2 ≡ pending s ++ (polled_by id f s).woken)
        × (s2.world ≡ (polled_by id f s).world)
        × ((j : ℕ) → j ≢ id → lookup j s2.tasks ≡ lookup j s.tasks)
  unfolding poll_task ◌>>=◌
  poll_task-room id f s h =
      let c = waker_of_lem id s in
      let p = polled_by id f s in
      let mid : State R Q = record s {
        waker_cache = c.0;
        tasks = insert id p.future s.tasks;
        world = p.world;
      } in
      let woke = wake_all-room p.woken mid h in
      let s3 : State R Q = record mid { task_queue = woke.0 } in
      let kept = finish_if-pending p.ready id s3 in
      (
        if p.ready then finish R Q id s3 else s3,
        bind-ok (waker_of R Q id) _ s c.1
            ∙ bind-ok (wake_all R Q p.woken)
                (λ _. if p.ready then modify (finish R Q id) else pure tt) mid woke.1
            ∙ finish_if p.ready id s3,
        kept.0 ∙ woke.2,
        kept.1,
        λ j ne. finish_if-tasks p.ready id s3 j ne ∙ lookup-insert_ne j id p.future s.tasks ne,
      )
