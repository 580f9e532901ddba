-- ===== src/Kernel/Interrupts/Acknowledge.antt =====
-- Interrupts are acknowledged (kernel/src/interrupts.rs), since the PICs hold back the next one until
-- then.
use riptide.Prelude.{ℕ, ◌≡◌, refl, Option, none, some, List, [], ◌∷◌, ◌++◌, codes}
use riptide.Fs.State.{Outcome, ok, err, panic, ◌>>=◌}
use riptide.ArrayQueue.{ArrayQueue}
use riptide.Vga.{Writer}
use riptide.Vga.Screen.{Sheet, Shows, type_string, write_string-Refines}
use riptide.Shell.Keyboard
use riptide.Shell.Keyboard.{add_scancode}
use riptide.Shell.Keyboard.Received.{View, view, received, Ends, add_scancode-received}
use riptide.Shell.Keyboard.Waker.{AtomicWaker}
use riptide.Kernel.Interrupts.{
  Interrupted, timer, keyboard, as_u8, on_scancodes, acknowledge_interrupt, timer_interrupt_handler,
  keyboard_interrupt_handler,
}

module _ (Q T : ArrayQueue ℕ) (W : AtomicWaker) where
  -- A keyboard interrupt ends: where the scancode is dealt with, it is acknowledged once; where the
  -- kernel panics, it is not.
  abbrev pub Handled : List ℕ → Outcome (Unit {0}) × Interrupted Q T W → Option View → Type 0
  Handled sent (ok a, s) (some v) =
      (view Q T W v.sheet s.scancodes ≡ v)
      × Shows s.scancodes.writer v.sheet
      × (s.acknowledged ≡ sent ++ as_u8 keyboard ∷ [])
  Handled sent (ok a, s) none = ⊥
  Handled sent (err e, s) o = ⊥
  Handled sent (panic, s) none = s.acknowledged ≡ sent
  Handled sent (panic, s) (some v) = ⊥

  keyboard_interrupt-Handled :
      (scancode : ℕ) (s : Interrupted Q T W) (o : Option View)
      → Ends Q T W (add_scancode Q T W scancode s.scancodes) o
      → Handled s.acknowledged (keyboard_interrupt_handler Q T W scancode s) o
  unfolding keyboard_interrupt_handler on_scancodes acknowledge_interrupt ◌>>=◌
  keyboard_interrupt-Handled scancode s o h = go (add_scancode Q T W scancode s.scancodes) o h
    where
      go :
          (r : Outcome (Unit {0}) × Keyboard.State Q T W) (o : Option View)
          → Ends Q T W r o
          → Handled s.acknowledged
              (((λ (x : Interrupted Q T W). (r.0, record x { scancodes = r.1 })) >>= λ _.
                  acknowledge_interrupt Q T W keyboard)
                s)
              o
      go (ok a, t) (some v) h = (h.0, h.1, refl)
      go (ok a, t) none h = h
      go (err e, t) o h = h
      go (panic, t) none h = refl
      go (panic, t) (some v) h = h

  -- The timer's handler always returns: it prints a dot, acknowledges the timer's interrupt once, and
  -- changes nothing else. The keyboard's does what `received` says: it queues the scancode and makes
  -- the task that waits for it ready; or, without a queue or room in it, drops the scancode and prints
  -- a warning, which is all that it changes; and it acknowledges the keyboard's interrupt once. Where
  -- there is no room for the task, it panics, and acknowledges none.
  pub interrupts-acknowledged :
      (scancode : ℕ) (s : Interrupted Q T W) (t : Sheet)
      → Shows s.scancodes.writer t
      → ((w : Writer) × (timer_interrupt_handler Q T W s ≡ (
        ok tt,
        record s {
          scancodes = record s.scancodes { writer = w };
          acknowledged = s.acknowledged ++ as_u8 timer ∷ [];
        },
      ))
          × Shows w (type_string (codes ".") t))
        × Handled s.acknowledged
            (keyboard_interrupt_handler Q T W scancode s)
            (received Q T W scancode (view Q T W t s.scancodes))
  unfolding timer_interrupt_handler on_scancodes Keyboard.on_writer acknowledge_interrupt ◌>>=◌
  interrupts-acknowledged scancode s t h =
      let w = write_string-Refines (codes ".") s.scancodes.writer t h in
      (
        (w.0, rw w.1 refl, w.2),
        keyboard_interrupt-Handled scancode s (received Q T W scancode (view Q T W t s.scancodes))
            (add_scancode-received Q T W scancode s.scancodes t h),
      )
