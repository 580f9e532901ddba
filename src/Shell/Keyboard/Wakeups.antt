-- ===== src/Shell/Keyboard/Wakeups.antt =====
-- No wake-up is lost between `poll_next` and the keyboard interrupt
-- (kernel/src/shell/keyboard.rs), which may come between any two of its steps.
use mathlib.Core.Path.{subst}
use riptide.Prelude.{
  ℕ, ◌≡◌, refl, sym, ap, ◌∙◌, ◌⊎◌, inl, inr, true, Option, none, some, List, [], ◌∷◌, ◌++◌, any,
  ◌==◌, arith, Option-cases,
}
use riptide.Fs.State.{Outcome, ok, ◌>>=◌}
use riptide.Fs.State.Keeps.{Holds, Top}
use riptide.ArrayQueue.{ArrayQueue, uncons}
use riptide.Shell.Keyboard.Waker.{AtomicWaker}
use riptide.Shell.Keyboard.{
  State, Poll, ready, pending, add_scancode, pop_scancode, register, take_waker,
}
use riptide.Shell.Keyboard.Interrupted.{
  waiting, ready_tasks, woken_by, Interrupted, add_scancode-Interrupted,
}

-- Where `poll_next` is.
pub data Phase : Type 0 where
  polled registering popping_again : Phase
  taking : ℕ → Phase
  returned : Poll → Phase

module _ (Q T : ArrayQueue ℕ) (W : AtomicWaker) (id : ℕ) where
  -- One step of `poll_next` for the task `id`, or a keyboard interrupt.
  pub data Step : Phase → State Q T W → Phase → State Q T W → Type 0 where
    hit :
        {s t : State Q T W} (c : ℕ)
        → pop_scancode Q T W s ≡ (ok (some c), t)
        → Step polled s (returned (ready c)) t
    miss : {s t : State Q T W} → pop_scancode Q T W s ≡ (ok none, t) → Step polled s registering t
    registers :
        {s t : State Q T W} → register Q T W id s ≡ (ok tt, t) → Step registering s popping_again t
    hit_again :
        {s t : State Q T W} (c : ℕ)
        → pop_scancode Q T W s ≡ (ok (some c), t)
        → Step popping_again s (taking c) t
    miss_again :
        {s t : State Q T W}
        → pop_scancode Q T W s ≡ (ok none, t)
        → Step popping_again s (returned pending) t
    takes :
        {s t : State Q T W} {c : ℕ}
        → take_waker Q T W s ≡ (ok tt, t)
        → Step (taking c) s (returned (ready c)) t
    interrupt :
        {p : Phase} {s t : State Q T W} (c : ℕ) → add_scancode Q T W c s ≡ (ok tt, t) → Step p s p t

  pub data Steps : Phase → State Q T W → Phase → State Q T W → Type 0 where
    here : {p : Phase} {s : State Q T W} → Steps p s p s
    next : {p q r : Phase} {s t u : State Q T W} → Steps p s q t → Step q t r u → Steps p s r u

  abbrev pub IsWoken : State Q T W → Type 0
  IsWoken s = any (λ w. w == id) (ready_tasks Q T W s) ≡ true

  abbrev pub IsRegistered : State Q T W → Type 0
  IsRegistered s = W.registered s.waker ≡ some id

  -- The task will be woken by the next scancode, or is in the queue.
  abbrev pub Awaits : State Q T W → Type 0
  Awaits s = (IsRegistered s × (waiting Q T W s ≡ [])) ⊎ IsWoken s

  any-snoc : (ids : List ℕ) → any (λ w. w == id) (ids ++ id ∷ []) ≡ true
  any-snoc [] = ground arith
  any-snoc (w ∷ ids) = ground (arith, any-snoc ids)

  any-append :
      (ids more : List ℕ) → any (λ w. w == id) ids ≡ true → any (λ w. w == id) (ids ++ more) ≡ true
  any-append [] more h = absurd (ground (arith, h))
  any-append (w ∷ ids) more h = ground (arith, any-append ids more, h)

  Hopes : State Q T W → Type 0
  Hopes s = IsRegistered s ⊎ IsWoken s

  woken_by-grows :
      (o : Option ℕ) (ids : List ℕ)
      → any (λ w. w == id) ids ≡ true
      → any (λ w. w == id) (woken_by Q T W o ids) ≡ true
  woken_by-grows none ids h = h
  woken_by-grows (some w) ids h = any-append ids (w ∷ []) h

  registered-IsWoken :
      (s t : State Q T W)
      → ready_tasks Q T W t ≡ woken_by Q T W (W.registered s.waker) (ready_tasks Q T W s)
      → IsRegistered s
      → IsWoken t
  registered-IsWoken s t e h = rw e (rw h (any-snoc (ready_tasks Q T W s)))

  still-IsWoken :
      (s t : State Q T W)
      → ready_tasks Q T W t ≡ woken_by Q T W (W.registered s.waker) (ready_tasks Q T W s)
      → IsWoken s
      → IsWoken t
  still-IsWoken s t e h = rw e (woken_by-grows (W.registered s.waker) (ready_tasks Q T W s) h)

  Interrupted-Hopes : (s t : State Q T W) → Interrupted Q T W s t → Hopes s → Hopes t
  unfolding Hopes
  Interrupted-Hopes s t (inl same) (inl r) = inl (rw same.0 r)
  Interrupted-Hopes s t (inl same) (inr w) = inr (rw same.1 w)
  Interrupted-Hopes s t (inr e) (inl r) = inr (registered-IsWoken s t e r)
  Interrupted-Hopes s t (inr e) (inr w) = inr (still-IsWoken s t e w)

  Interrupted-Awaits : (s t : State Q T W) → Interrupted Q T W s t → Awaits s → Awaits t
  Interrupted-Awaits s t (inl same) (inl r) = inl (rw same.0 r.0, rw same.2 r.1)
  Interrupted-Awaits s t (inl same) (inr w) = inr (rw same.1 w)
  Interrupted-Awaits s t (inr e) (inl r) = inr (registered-IsWoken s t e r.0)
  Interrupted-Awaits s t (inr e) (inr w) = inr (still-IsWoken s t e w)

  -- What holds where `poll_next` is.
  Holding : Phase → State Q T W → Type 0
  Holding polled s = Unit
  Holding registering s = Unit
  Holding popping_again s = Hopes s
  Holding (taking c) s = Unit
  Holding (returned (ready c)) s = Unit
  Holding (returned pending) s = Awaits s

  Interrupted-Holding :
      (p : Phase) (s t : State Q T W) → Interrupted Q T W s t → Holding p s → Holding p t
  unfolding Holding
  Interrupted-Holding polled s t i h = tt
  Interrupted-Holding registering s t i h = tt
  Interrupted-Holding popping_again s t i h = Interrupted-Hopes s t i h
  Interrupted-Holding (taking c) s t i h = tt
  Interrupted-Holding (returned (ready c)) s t i h = tt
  Interrupted-Holding (returned pending) s t i h = Interrupted-Awaits s t i h

  uncons-nil : (xs : List ℕ) → uncons xs ≡ none → xs ≡ []
  uncons-nil [] e = refl
  uncons-nil (x ∷ xs) e = absurd (ground (arith, e))

  -- A `pop` that finds nothing changes nothing.
  pop_scancode-none :
      (s : State Q T W)
      → (pop_scancode Q T W s).0 ≡ ok none
      → ((pop_scancode Q T W s).1 ≡ s) × (waiting Q T W s ≡ [])
  unfolding pop_scancode ◌>>=◌
  pop_scancode-none s = elim (Option-cases s.scancode_queue) [
    | inl e ↦ rw e (λ h. absurd (ground (arith, h)))
    | inr e ↦ elim (Option-cases (Q.pop e.0)) [
      | inl f ↦
          rw (e.1, f)
            (λ h. (refl, uncons-nil (Q.to_list e.0) (ground (arith, Q.to_list-pop e.0, f))))
      | inr f ↦ rw (e.1, f.1) (λ h. absurd (ground (arith, h)))
    ]
  ]

  missed :
      (s t : State Q T W) → pop_scancode Q T W s ≡ (ok none, t) → (t ≡ s) × (waiting Q T W s ≡ [])
  missed s t e =
      let found = pop_scancode-none s (ap (λ (r : Outcome (Option ℕ) × State Q T W). r.0) e) in
      (sym (ap (λ (r : Outcome (Option ℕ) × State Q T W). r.1) e) ∙ found.0, found.1)

  missed-Awaits : (s : State Q T W) → Hopes s → waiting Q T W s ≡ [] → Awaits s
  unfolding Hopes
  missed-Awaits s (inl r) e = inl (r, e)
  missed-Awaits s (inr w) e = inr w

  registered-Hopes : (s t : State Q T W) → register Q T W id s ≡ (ok tt, t) → Hopes t
  unfolding register Hopes ◌>>=◌
  registered-Hopes s t e =
      subst (λ (x : State Q T W). Hopes x) (ap (λ (r : Outcome (Unit {0}) × State Q T W). r.1) e)
        (inl (W.registered-register id s.waker))

  Step-Holding :
      {p : Phase} {s : State Q T W} {q : Phase} {t : State Q T W}
      → Step p s q t
      → Holding p s
      → Holding q t
  unfolding Holding
  Step-Holding (hit c e) h = tt
  Step-Holding (miss e) h = tt
  Step-Holding {s = s} {t = t} (registers e) h = registered-Hopes s t e
  Step-Holding (hit_again c e) h = tt
  Step-Holding {s = s} {t = t} (miss_again e) h =
      let m = missed s t e in
      subst (λ (x : State Q T W). Awaits x) (sym m.0) (missed-Awaits s h m.1)
  Step-Holding (takes e) h = tt
  Step-Holding {p = p} {s = s} {t = t} (interrupt c e) h =
      Interrupted-Holding p s t
        (subst (Holds Top (λ _. Interrupted Q T W s)) e (add_scancode-Interrupted Q T W c s)) h

  Steps-Holding :
      {p : Phase} {s : State Q T W} {q : Phase} {t : State Q T W}
      → Steps p s q t
      → Holding p s
      → Holding q t
  Steps-Holding here h = h
  Steps-Holding (next steps step) h = Step-Holding step (Steps-Holding steps h)

  -- Whatever keyboard interrupts come between the steps of `poll_next` and after it, if it has returned
  -- `Pending`, then the task's waker is registered and no scancode waits, or the task was woken: it is
  -- in the executor's queue.
  pub no_lost_wakeup : {s t : State Q T W} → Steps polled s (returned pending) t → Awaits t
  unfolding Holding
  no_lost_wakeup steps = Steps-Holding steps tt
