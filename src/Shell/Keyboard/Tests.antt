-- ===== src/Shell/Keyboard/Tests.antt =====
-- The shell's task polls for a scancode, and an interrupt comes in right before it registers.
use riptide.Prelude.{ℕ, ◌≡◌, refl, Option, none, some, List, [], ◌∷◌}
use riptide.Fs.State.{ok, ◌>>=◌}
use riptide.ArrayQueue.{ArrayQueue}
use riptide.ArrayQueue.Bounded.{bounded}
use riptide.Vga.{blank_cell}
use riptide.Shell.Keyboard.Waker.{option_waker}
use riptide.Shell.Keyboard.{
  State, ready, pending, poll_next, add_scancode, push_scancode, pop_scancode, register, take_waker,
  wake, wake_task, first_pop, second_pop, new_stream, uninit,
}
use riptide.Shell.Keyboard.Wakeups.{
  polled, returned, Steps, here, next, miss, registers, miss_again, interrupt, Awaits,
  no_lost_wakeup,
}

abbrev scancodes : ArrayQueue ℕ
scancodes = bounded 100

abbrev tasks : ArrayQueue ℕ
tasks = bounded 100

-- The queue is empty, and the task 7 is registered or not.
abbrev waits : Option ℕ → List ℕ → List ℕ → State scancodes tasks option_waker
waits waker woken codes = record {
  scancode_queue = some codes;
  waker = waker;
  task_queue = woken;
  writer = record { column_position = 0; color_code = 15; buffer = λ r c. blank_cell 15 };
}

started :
    new_stream scancodes tasks option_waker
      (uninit scancodes tasks option_waker (waits none [] []).writer)
    ≡ (ok tt, waits none [] [])
unfolding new_stream ◌>>=◌
started = refl

steps_run :
    (pop_scancode scancodes tasks option_waker (waits none [] []) ≡ (ok none, waits none [] []))
    × (register scancodes tasks option_waker 7 (waits none [] []) ≡ (ok tt, waits (some 7) [] []))
    × (pop_scancode scancodes tasks option_waker (waits (some 7) [] [])
        ≡ (ok none, waits (some 7) [] []))
    × (add_scancode scancodes tasks option_waker 30 (waits (some 7) [] [])
        ≡ (ok tt, waits none (7 ∷ []) (30 ∷ [])))
unfolding pop_scancode register add_scancode push_scancode wake wake_task ◌>>=◌
steps_run = (refl, refl, refl, refl)

-- The interrupt comes right behind `Pending`.
late :
    Steps scancodes tasks option_waker 7 polled
      (waits none [] [])
      (returned pending)
      (waits none (7 ∷ []) (30 ∷ []))
late =
    next
      (next (next (next here (miss steps_run.0)) (registers steps_run.1)) (miss_again steps_run.2))
      (interrupt 30 steps_run.3)

no_lost_wakeup_example : Awaits scancodes tasks option_waker 7 (waits none (7 ∷ []) (30 ∷ []))
no_lost_wakeup_example = no_lost_wakeup scancodes tasks option_waker 7 late

-- Without an interrupt in between, a poll gives the oldest scancode.
poll_next-oldest :
    poll_next scancodes tasks option_waker 7 (waits none [] (30 ∷ 31 ∷ []))
    ≡ (ok (ready 30), waits none [] (31 ∷ []))
unfolding poll_next first_pop second_pop pop_scancode register take_waker ◌>>=◌
poll_next-oldest = refl
