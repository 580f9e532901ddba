-- ===== src/Task/Executor/Ends.antt =====
-- `run_ready_tasks`: it ends when the polls wake no more than a budget allows, and it serves the
-- queue in order.
use riptide.Prelude.{
  ℕ, zero, suc, ◌+◌, ◌≤◌, ◌<◌, ◌≡◌, ◌≢◌, refl, sym, ap, ◌∙◌, Bool, true, false, none, some, List,
  [], ◌∷◌, ◌++◌, length, length-append, arith, if◌then◌else◌, append-nil, append_assoc,
  Option-cases, inl, inr, All,
}
use riptide.BTreeMap.{lookup}
use riptide.BTreeMap.Keys.{nat_key}
use riptide.Fs.State.{ok, pure, ◌>>=◌}
use riptide.Fs.State.Keeps.{bind-ok}
use riptide.ArrayQueue.{ArrayQueue}
use riptide.Task.{Runtime}
use riptide.Task.Executor.{State, poll_task, visit, run_next, run_ready_tasks}
use riptide.Task.Executor.Steps.{pending, cached_waker, poll_task-room}

-- What the polls may still wake: each wake-up is paid for.
pub record Budget (R : Runtime) : Type 0 where
  pub left : R.World → ℕ
  pub paid :
      (id : ℕ) (f : R.Future) (w : R.World)
      → length (R.poll id f w).woken + left (R.poll id f w).world ≤ left w

module _ (R : Runtime) (Q : ArrayQueue ℕ) (B : Budget R) where
  -- The ids in the queue and those that may still be added.
  abbrev pub work : State R Q → ℕ
  work s = length (pending R Q s) + B.left s.world

  -- `s2` is behind `s` after the round of `id`.
  record Visited (id : ℕ) (s s2 : State R Q) : Type 0 where
    woken : List ℕ
    queued : pending R Q s2 ≡ pending R Q s ++ woken
    spent : length woken + B.left s2.world ≤ B.left s.world
    others : (j : ℕ) → j ≢ id → lookup j s2.tasks ≡ lookup j s.tasks

  visit_lem :
      (id : ℕ) (s : State R Q)
      → work s ≤ Q.capacity
      → (s2 : State R Q) × (visit R Q id s ≡ (ok false, s2)) × Visited id s s2
  unfolding visit ◌>>=◌
  visit_lem id s h = elim (Option-cases (lookup id s.tasks)) [
    | inl e ↦ (
      s,
      rw e refl,
      record {
        woken = [];
        queued = sym (append-nil (pending R Q s));
        spent = omega arith;
        others = λ j ne. refl;
      },
    )
    | inr e ↦
        let pays = B.paid (cached_waker R Q id s) e.0 s.world in
        let polled = poll_task-room R Q id e.0 s (omega (arith, pays)) in
        (
          polled.0,
          rw e.1 (bind-ok (poll_task R Q id e.0) (λ _. pure false) s polled.1),
          record {
            woken = (R.poll (cached_waker R Q id s) e.0 s.world).woken;
            queued = polled.2;
            spent = rw polled.3 pays;
            others = polled.4;
          },
        )
  ]

  pop_none : (q : Q.Queue) → Q.to_list q ≡ [] → Q.pop q ≡ none
  pop_none q e = elim (Option-cases (Q.pop q)) [
    | inl p ↦ p
    | inr p ↦ absurd (ground (arith, Q.to_list-pop q, p.1, e))
  ]

  pop_some :
      (q : Q.Queue) (id : ℕ) (rest : List ℕ)
      → Q.to_list q ≡ id ∷ rest
      → (q2 : Q.Queue) × (Q.pop q ≡ some (id, q2)) × (Q.to_list q2 ≡ rest)
  pop_some q id rest e = elim (Option-cases (Q.pop q)) [
    | inl p ↦ absurd (ground (arith, Q.to_list-pop q, p, e))
    | inr p ↦
        (p.0.1, ground (arith, Q.to_list-pop q, p.1, e), ground (arith, Q.to_list-pop q, p.1, e))
  ]

  run_next-empty : (s : State R Q) → pending R Q s ≡ [] → run_next R Q s ≡ (ok true, s)
  unfolding run_next ◌>>=◌
  run_next-empty s e = rw (pop_none s.task_queue e) refl

  -- A round takes the oldest id.
  run_next-oldest :
      (s : State R Q) (id : ℕ) (rest : List ℕ)
      → pending R Q s ≡ id ∷ rest
      → (q : Q.Queue) × (run_next R Q s ≡ visit R Q id (record s { task_queue = q }))
        × (Q.to_list q ≡ rest)
  unfolding run_next ◌>>=◌
  run_next-oldest s id rest e = let p = pop_some s.task_queue id rest e in (p.0, rw p.1 refl, p.2)

  rounds :
      (fuel : ℕ) (s : State R Q) (id : ℕ) (rest : List ℕ)
      → pending R Q s ≡ id ∷ rest
      → (q : Q.Queue) × (Q.to_list q ≡ rest)
        × (run_ready_tasks R Q (suc fuel) s
            ≡ (visit R Q id >>= λ (done : Bool).
                  if done then pure true else run_ready_tasks R Q fuel)
                (record s { task_queue = q }))
  unfolding run_ready_tasks ◌>>=◌
  rounds fuel s id rest e = let r = run_next-oldest s id rest e in (r.0, r.2, rw r.1 refl)

  -- One round, and the work that is left.
  next_round :
      (fuel : ℕ) (s : State R Q) (id : ℕ) (rest : List ℕ)
      → work s ≤ Q.capacity
      → pending R Q s ≡ id ∷ rest
      → (s2 : State R Q) × (run_ready_tasks R Q (suc fuel) s ≡ run_ready_tasks R Q fuel s2)
        × (more : List ℕ) × (pending R Q s2 ≡ rest ++ more)
        × (suc (work s2) ≤ work s)
        × ((j : ℕ) → j ≢ id → lookup j s2.tasks ≡ lookup j s.tasks)
  next_round fuel s id rest h e =
      let r = rounds fuel s id rest e in
      let popped : State R Q = record s { task_queue = r.0 } in
      let long = ap length e in
      let short = ap length r.1 in
      let v = visit_lem id popped (omega (arith, long, short)) in
      let added = v.2.queued ∙ ap (λ (xs : List ℕ). xs ++ v.2.woken) r.1 in
      let longer = ap length added ∙ length-append rest v.2.woken in
      let spent = v.2.spent in
      (
        v.0,
        r.2 ∙ bind-ok (visit R Q id) _ popped v.1,
        v.2.woken,
        added,
        omega (arith, long, longer, spent),
        v.2.others,
      )

  run_ready_tasks-empty :
      (fuel : ℕ) (s : State R Q)
      → pending R Q s ≡ []
      → run_ready_tasks R Q (suc fuel) s ≡ (ok true, s)
  unfolding run_ready_tasks ◌>>=◌
  run_ready_tasks-empty fuel s e = rw (run_next-empty s e) refl

  -- If the wakers that the polls call are paid for by a budget, and the queue has room for what is in
  -- it and for the budget, then `run_ready_tasks` returns with more fuel than that: no push fails,
  -- and the queue is empty behind it.
  pub run_ready_tasks-ends :
      (fuel : ℕ) (s : State R Q)
      → work s ≤ Q.capacity
      → work s < fuel
      → (s2 : State R Q) × (run_ready_tasks R Q fuel s ≡ (ok true, s2)) × (pending R Q s2 ≡ [])
  run_ready_tasks-ends zero s h enough = absurd (omega arith)
  run_ready_tasks-ends (suc fuel) s h enough = go (run_ready_tasks-ends fuel) (pending R Q s) refl
    where
      Ends : ℕ → State R Q → Type 0
      Ends n s =
          (s2 : State R Q) × (run_ready_tasks R Q n s ≡ (ok true, s2)) × (pending R Q s2 ≡ [])

      go :
          ((t : State R Q) → work t ≤ Q.capacity → work t < fuel → Ends fuel t)
          → (queue : List ℕ) → pending R Q s ≡ queue
          → Ends (suc fuel) s
      go ends [] e = (s, run_ready_tasks-empty fuel s e, e)
      go ends (id ∷ rest) e =
          let r = next_round fuel s id rest h e in
          let end = ends r.0 (omega (arith, r.4)) (omega (arith, r.4)) in
          (end.0, r.1 ∙ end.1, end.2)

  fuel_eq : (m n : ℕ) (s : State R Q) → m ≡ n → run_ready_tasks R Q m s ≡ run_ready_tasks R Q n s
  fuel_eq m n s e = ap (λ (k : ℕ). run_ready_tasks R Q k s) e

  -- If the wakers that the polls call are paid for by a budget, and the queue has room for what is in
  -- it and for the budget, then an id in the queue is served after as many rounds as there are ids
  -- before it: its round starts with the ids that were behind it and those woken since in the queue,
  -- and if the id is not among those before it, then its task is still the one that was there.
  pub run_ready_tasks-serves :
      (before : List ℕ) (id : ℕ) (after : List ℕ) (fuel : ℕ) (s : State R Q)
      → work s ≤ Q.capacity
      → pending R Q s ≡ before ++ id ∷ after
      → (s2 : State R Q) × (more : List ℕ) × (pending R Q s2 ≡ after ++ more)
        × (run_ready_tasks R Q (length before + suc fuel) s
            ≡ (visit R Q id >>= λ (done : Bool).
                  if done then pure true else run_ready_tasks R Q fuel)
                s2)
        × (All (λ (j : ℕ). id ≢ j) before → lookup id s2.tasks ≡ lookup id s.tasks)
  run_ready_tasks-serves [] id after fuel s h e =
      let r = rounds fuel s id after e in
      let same = fuel_eq (length {A = ℕ} [] + suc fuel) (suc fuel) s (omega arith) in
      (record s { task_queue = r.0 }, [], r.1 ∙ sym (append-nil after), same ∙ r.2, λ _. refl)
  run_ready_tasks-serves (b ∷ before) id after fuel s h e =
      let r = next_round (length before + suc fuel) s b (before ++ id ∷ after) h e in
      let e2 = r.3 ∙ append_assoc before (id ∷ after) r.2 in
      let rest = run_ready_tasks-serves before id (after ++ r.2) fuel r.0 (omega (arith, r.4)) e2 in
      (
        rest.0,
        r.2 ++ rest.1,
        rest.2 ∙ append_assoc after r.2 rest.1,
        fuel_eq (length (b ∷ before) + suc fuel) (suc (length before + suc fuel)) s (omega arith)
            ∙ r.1
            ∙ rest.3,
        λ all. rest.4 all.1 ∙ r.5 id all.0,
      )
