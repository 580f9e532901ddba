-- ===== src/Shell/Keyboard/Received.antt =====
-- What `add_scancode` does with a scancode (kernel/src/shell/keyboard.rs), on all of its branches.
use riptide.Prelude.{
  ℕ, ◌≡◌, refl, sym, ap, ◌∙◌, Option, none, some, List, [], ◌∷◌, ◌++◌, Bytes, codes, length, ltb,
  if◌then◌else◌, Option-cases, inl, inr,
}
use mathlib.Core.Option
use mathlib.Core.Path.{subst}
use riptide.Fs.State.{Outcome, ok, err, panic, match_option, ◌>>=◌}
use riptide.ArrayQueue.{ArrayQueue, push-none, push-some}
use riptide.Vga.{newline}
use riptide.Vga.Screen.{Sheet, Shows, type_string, write_string-Refines}
use riptide.Shell.Keyboard.Waker.{AtomicWaker}
use riptide.Shell.Keyboard.{
  State, add_scancode, push_scancode, wake, wake_task, warn, on_writer, full_warning,
  uninitialized_warning,
}

-- The scancodes that wait, if there is a queue; the tasks that are ready, oldest first; the task that
-- waits for a scancode; and what is on the screen.
pub record View : Type 0 where
  pub waiting : Option (List ℕ)
  pub ready_tasks : List ℕ
  pub registered : Option ℕ
  pub sheet : Sheet

module _ (Q T : ArrayQueue ℕ) (W : AtomicWaker) where
  abbrev pub view : Sheet → State Q T W → View
  view t s = record {
    waiting = Option.map Q.to_list s.scancode_queue;
    ready_tasks = T.to_list s.task_queue;
    registered = W.registered s.waker;
    sheet = t;
  }

  abbrev pub warned : Bytes → View → View
  warned text v = record v { sheet = type_string (text ++ newline ∷ []) v.sheet }

  -- The task that waits becomes ready, unless too many are: then the kernel panics.
  abbrev pub woken : Option ℕ → View → Option View
  woken none v = some (record v { registered = none })
  woken (some id) v =
      if ltb (length v.ready_tasks) T.capacity
      then some (record v { registered = none; ready_tasks = v.ready_tasks ++ id ∷ [] })
      else none

  -- A scancode is dropped with a warning if there is no queue or no room in it; it is queued otherwise,
  -- and the task that waits for it is woken. `none` is a panic.
  abbrev pub received_in : ℕ → Option (List ℕ) → View → Option View
  received_in scancode none v = some (warned (codes "WARNING: scancode queue uninitialized") v)
  received_in scancode (some waiting) v =
      if ltb (length waiting) Q.capacity
      then woken v.registered (record v { waiting = some (waiting ++ scancode ∷ []) })
      else some (warned (codes "WARNING: scancode queue full; dropping keyboard input") v)

  abbrev pub received : ℕ → View → Option View
  received scancode v = received_in scancode v.waiting v

  -- A run that ends like this: it returns, in a state that looks so, or it panics.
  abbrev pub Ends : Outcome (Unit {0}) × State Q T W → Option View → Type 0
  Ends (ok a, s) (some v) = (view v.sheet s ≡ v) × Shows s.writer v.sheet
  Ends (ok a, s) none = ⊥
  Ends (err e, s) o = ⊥
  Ends (panic, s) none = Unit
  Ends (panic, s) (some v) = ⊥

  warn-Ends :
      (text : Bytes) (s : State Q T W) (t : Sheet)
      → Shows s.writer t
      → Ends (warn Q T W text s) (some (warned text (view t s)))
  unfolding warn on_writer
  warn-Ends text s t h =
      let r = write_string-Refines (text ++ newline ∷ []) s.writer t h in rw r.1 (refl, r.2)

  wake-Ends :
      (s : State Q T W) (t : Sheet)
      → Shows s.writer t
      → Ends (wake Q T W s) (woken (W.registered s.waker) (view t s))
  unfolding wake wake_task ◌>>=◌
  wake-Ends s t h = elim (Option-cases (W.take s.waker).0) [
    | inl e ↦
        let free : W.registered s.waker ≡ none = sym (W.take-registered s.waker) ∙ e in
        rw e (
          rw free (
            ap (λ (o : Option ℕ). record (view t s) { registered = o }) (W.registered-take s.waker),
            h,
          ))
    | inr e ↦
        let waits : W.registered s.waker ≡ some e.0 = sym (W.take-registered s.waker) ∙ e.1 in
        elim (Option-cases (T.push e.0 s.task_queue)) [
          | inl f ↦ rw (e.1, f) (rw (waits, push-none T e.0 s.task_queue f) tt)
          | inr f ↦
              let p = push-some T e.0 s.task_queue f.0 f.1 in
              rw (e.1, f.1)
                (rw (waits, p.0)
                  (
                    ap
                        (λ (r : Option ℕ × List ℕ). record (view t s) {
                          registered = r.0;
                          ready_tasks = r.1;
                        })
                        (both (W.registered-take s.waker) p.1),
                    h,
                  ))
        ]
  ]
    where
      both :
          {a b : Option ℕ} {xs ys : List ℕ}
          → a ≡ b
          → xs ≡ ys
          → Path (Option ℕ × List ℕ) (a, xs) (b, ys)
      both e f = rw (e, f) refl

  push_scancode-Ends :
      (scancode : ℕ) (q : Q.Queue) (s : State Q T W) (t : Sheet)
      → Shows s.writer t
      → Ends
          (push_scancode Q T W scancode q s)
          (received_in scancode (some (Q.to_list q)) (view t s))
  unfolding push_scancode ◌>>=◌
  push_scancode-Ends scancode q s t h = elim (Option-cases (Q.push scancode q)) [
    | inl e ↦ rw (e, push-none Q scancode q e) (warn-Ends (full_warning Q T W) s t h)
    | inr e ↦
        let p = push-some Q scancode q e.0 e.1 in
        let queued : State Q T W = record s { scancode_queue = some e.0 } in
        rw (e.1, p.0)
          (subst
            (λ (xs : List ℕ).
              Ends (wake Q T W queued)
                (woken (W.registered s.waker) (record (view t s) { waiting = some xs })))
            p.1 (wake-Ends queued t h))
  ]

  -- What `add_scancode` does is what `received` says, on all branches.
  pub add_scancode-received :
      (scancode : ℕ) (s : State Q T W) (t : Sheet)
      → Shows s.writer t
      → Ends (add_scancode Q T W scancode s) (received scancode (view t s))
  unfolding add_scancode ◌>>=◌
  add_scancode-received scancode s t h = go s.scancode_queue
    where
      go :
          (o : Option Q.Queue)
          → Ends
              (match_option o
                (warn Q T W (uninitialized_warning Q T W))
                (push_scancode Q T W scancode)
                s)
              (received_in scancode (Option.map Q.to_list o) (view t s))
      go none = warn-Ends (uninitialized_warning Q T W) s t h
      go (some q) = push_scancode-Ends scancode q s t h
