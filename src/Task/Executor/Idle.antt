-- ===== src/Task/Executor/Idle.antt =====
-- `run` and `sleep_if_idle`, with the interrupts that come in between.
use riptide.Prelude.{ℕ, ◌≡◌, refl, sym, ◌∙◌, Bool, true, false, List, [], ◌∷◌, if◌then◌else◌, arith}
use riptide.Fs.State.{ok}
use riptide.ArrayQueue.{ArrayQueue, null}
use riptide.Task.{Runtime}
use riptide.Task.Executor.{State, wake_task, run_next}
use riptide.Task.Executor.Steps.{pending}

-- Where the processor is in `run`: in `run_ready_tasks`, between it and `sleep_if_idle`, behind
-- `interrupts::disable`, or halted by `enable_and_hlt`.
pub data Phase : Type 0 where
  polling idle masked halted : Phase

-- What an interrupt leaves the processor in: it ends a halt.
abbrev pub interrupted : Phase → Phase
interrupted halted = polling
interrupted polling = polling
interrupted idle = idle
interrupted masked = masked

abbrev pub interrupts_enabled : Phase → Bool
interrupts_enabled masked = false
interrupts_enabled polling = true
interrupts_enabled idle = true
interrupts_enabled halted = true

module _ (R : Runtime) (Q : ArrayQueue ℕ) where
  -- The test of `sleep_if_idle`, behind `interrupts::disable`: interrupts are enabled and the
  -- processor is halted in one step, or they are enabled and `run` starts over.
  abbrev pub sleep_or_run : State R Q → Phase
  sleep_or_run s = if Q.is_empty s.task_queue then halted else polling

  -- One step of `run`.
  pub data RunStep : Phase → State R Q → Phase → State R Q → Type 0 where
    round : {s t : State R Q} → run_next R Q s ≡ (ok false, t) → RunStep polling s polling t
    drained : {s t : State R Q} → run_next R Q s ≡ (ok true, t) → RunStep polling s idle t
    disable : {s : State R Q} → RunStep idle s masked s
    sleep : {s : State R Q} → RunStep masked s (sleep_or_run s) s

  -- One step of `run`, or an interrupt whose handler wakes a task or none.
  pub data Step : Phase → State R Q → Phase → State R Q → Type 0 where
    by_run : {p q : Phase} {s t : State R Q} → RunStep p s q t → Step p s q t
    wakes :
        {p : Phase} {s t : State R Q} (id : ℕ)
        → interrupts_enabled p ≡ true
        → wake_task R Q id s ≡ (ok tt, t)
        → Step p s (interrupted p) t
    ignored : {p : Phase} {s : State R Q} → interrupts_enabled p ≡ true → Step p s (interrupted p) s

  pub data Runs : Phase → State R Q → Phase → State R Q → Type 0 where
    here : {p : Phase} {s : State R Q} → Runs p s p s
    next : {p q r : Phase} {s t u : State R Q} → Runs p s q t → Step q t r u → Runs p s r u

  -- Steps of `run` with no interrupt in between.
  pub data Undisturbed : Phase → State R Q → Phase → State R Q → Type 0 where
    start : {p : Phase} {s : State R Q} → Undisturbed p s p s
    then_runs :
        {p q r : Phase} {s t u : State R Q}
        → Undisturbed p s q t
        → RunStep q t r u
        → Undisturbed p s r u

  -- Halted with an empty queue, or not halted.
  abbrev pub SleepsIdle : Phase → State R Q → Type 0
  SleepsIdle halted s = pending R Q s ≡ []
  SleepsIdle polling s = Unit
  SleepsIdle idle s = Unit
  SleepsIdle masked s = Unit

  null-nil : {A : Type 0} (xs : List A) → null xs ≡ true → xs ≡ []
  null-nil [] e = refl
  null-nil (x ∷ xs) e = absurd (ground (arith, e))

  interrupted-SleepsIdle : (p : Phase) (s : State R Q) → SleepsIdle (interrupted p) s
  interrupted-SleepsIdle halted s = tt
  interrupted-SleepsIdle polling s = tt
  interrupted-SleepsIdle idle s = tt
  interrupted-SleepsIdle masked s = tt

  sleep_or_run-SleepsIdle : (s : State R Q) → SleepsIdle (sleep_or_run s) s
  sleep_or_run-SleepsIdle s = go (Q.is_empty s.task_queue) refl
    where
      go : (b : Bool) → Q.is_empty s.task_queue ≡ b → SleepsIdle (if b then halted else polling) s
      go true e = null-nil (pending R Q s) (sym (Q.is_empty-null s.task_queue) ∙ e)
      go false e = tt

  RunStep-SleepsIdle : {p : Phase} {s t : State R Q} {q : Phase} → RunStep p s q t → SleepsIdle q t
  RunStep-SleepsIdle (round e) = tt
  RunStep-SleepsIdle (drained e) = tt
  RunStep-SleepsIdle disable = tt
  RunStep-SleepsIdle {s = s} sleep = sleep_or_run-SleepsIdle s

  Step-SleepsIdle : {p : Phase} {s t : State R Q} {q : Phase} → Step p s q t → SleepsIdle q t
  Step-SleepsIdle (by_run step) = RunStep-SleepsIdle step
  Step-SleepsIdle {p = p} {t = t} (wakes id on e) = interrupted-SleepsIdle p t
  Step-SleepsIdle {p = p} {t = t} (ignored on) = interrupted-SleepsIdle p t

  Runs-SleepsIdle :
      {p : Phase} {s : State R Q} {q : Phase} {t : State R Q}
      → Runs p s q t
      → SleepsIdle p s
      → SleepsIdle q t
  Runs-SleepsIdle here h = h
  Runs-SleepsIdle (next runs step) h = Step-SleepsIdle step

  -- Whatever the order of rounds and interrupts, the processor is halted only while the queue is
  -- empty: no wake-up is slept through.
  pub halts_when_empty : {s t : State R Q} → Runs polling s halted t → pending R Q t ≡ []
  halts_when_empty runs = Runs-SleepsIdle runs tt
