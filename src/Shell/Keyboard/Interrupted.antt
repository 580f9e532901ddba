-- ===== src/Shell/Keyboard/Interrupted.antt =====
-- What the keyboard interrupt does to the scancodes that wait and the tasks that are ready
-- (kernel/src/shell/keyboard.rs, `add_scancode`).
use riptide.Prelude.{
  ℕ, ◌≡◌, refl, sym, ◌∙◌, ◌⊎◌, inl, inr, Option, none, some, List, [], ◌∷◌, ◌++◌, Option-cases,
  Bytes,
}
use riptide.Fs.State.{Outcome, ok, err, panic, match_option, ◌>>=◌}
use riptide.Fs.State.Keeps.{Holds, Top}
use riptide.Vga.{Writer, write_string, newline}
use riptide.ArrayQueue.{ArrayQueue, push-some}
use riptide.Shell.Keyboard.Waker.{AtomicWaker}
use riptide.Shell.Keyboard.{
  State, add_scancode, push_scancode, wake, wake_task, warn, on_writer, full_warning,
  uninitialized_warning,
}

module _ (Q T : ArrayQueue ℕ) (W : AtomicWaker) where
  abbrev queued : Option Q.Queue → List ℕ
  queued none = []
  queued (some q) = Q.to_list q

  -- The scancodes that wait.
  abbrev pub waiting : State Q T W → List ℕ
  waiting s = queued s.scancode_queue

  -- The tasks that are ready, oldest first.
  abbrev pub ready_tasks : State Q T W → List ℕ
  ready_tasks s = T.to_list s.task_queue

  -- The ids with that of the task that is woken.
  abbrev pub woken_by : Option ℕ → List ℕ → List ℕ
  woken_by none ids = ids
  woken_by (some w) ids = ids ++ w ∷ []

  -- What an interrupt does: it prints a warning, or it wakes the registered task.
  abbrev pub Interrupted : State Q T W → State Q T W → Type 0
  Interrupted s t =
      ((t.waker ≡ s.waker) × (ready_tasks t ≡ ready_tasks s) × (waiting t ≡ waiting s))
      ⊎ (ready_tasks t ≡ woken_by (W.registered s.waker) (ready_tasks s))

  warn-Interrupted :
      (text : Bytes) (s : State Q T W) → Holds Top (λ _. Interrupted s) (warn Q T W text s)
  unfolding warn on_writer
  warn-Interrupted text s = go (write_string (text ++ newline ∷ []) s.writer)
    where
      go :
          (r : Outcome (Unit {0}) × Writer)
          → Holds Top (λ _. Interrupted s) (r.0, record s { writer = r.1 })
      go (ok a, w) = inl (refl, refl, refl)
      go (err e, w) = tt
      go (panic, w) = tt

  -- A wake-up: the registered task goes to the end of the queue, or the kernel panics.
  wake-woken :
      (s : State Q T W)
      → Holds Top
          (λ _ t. ready_tasks t ≡ woken_by (W.registered s.waker) (ready_tasks s))
          (wake Q T W s)
  unfolding wake wake_task ◌>>=◌
  wake-woken s = elim (Option-cases (W.take s.waker).0) [
    | inl e ↦ rw (e, sym (W.take-registered s.waker) ∙ e) refl
    | inr e ↦ elim (Option-cases (T.push e.0 s.task_queue)) [
      | inl f ↦ rw (e.1, f) tt
      | inr f ↦
          rw (e.1, f.1, sym (W.take-registered s.waker) ∙ e.1)
            (push-some T e.0 s.task_queue f.0 f.1).1
    ]
  ]

  pub add_scancode-Interrupted :
      (c : ℕ) (s : State Q T W) → Holds Top (λ _. Interrupted s) (add_scancode Q T W c s)
  unfolding add_scancode push_scancode ◌>>=◌
  add_scancode-Interrupted c s = go s.scancode_queue
    where
      wakes :
          (r : Outcome (Unit {0}) × State Q T W)
          → Holds Top (λ _ t. ready_tasks t ≡ woken_by (W.registered s.waker) (ready_tasks s)) r
          → Holds Top (λ _. Interrupted s) r
      wakes (ok a, t) h = inr h
      wakes (err e, t) h = h
      wakes (panic, t) h = h

      pushes : (q : Q.Queue) → Holds Top (λ _. Interrupted s) (push_scancode Q T W c q s)
      pushes q = elim (Option-cases (Q.push c q)) [
        | inl e ↦ rw e (warn-Interrupted (full_warning Q T W) s)
        | inr e ↦
            let queued : State Q T W = record s { scancode_queue = some e.0 } in
            rw e.1 (wakes (wake Q T W queued) (wake-woken queued))
      ]

      go :
          (o : Option Q.Queue)
          → Holds Top
              (λ _. Interrupted s)
              (match_option o (warn Q T W (uninitialized_warning Q T W)) (push_scancode Q T W c) s)
      go none = warn-Interrupted (uninitialized_warning Q T W) s
      go (some q) = pushes q
