-- ===== src/Shell/Line/Keeps/Enter.antt =====
-- What enter keeps of the line and of the history, and so every key.
use riptide.Prelude.{ℕ, ◌≡◌, Bool, true, false, ◌∷◌, ◌==◌, length, ltb, arith, if◌then◌else◌}
use riptide.Fs.State.{gets, modify, ◌>>=◌, assert}
use riptide.Fs.State.Keeps.{
  Keeps, Triple, Keeps-pure, Keeps-gets, Keeps-if, Keeps-bind, Keeps-modify, Triple-bind,
  Triple-gets, Triple-modify, Triple-pure, Triple-panics,
}
use riptide.Vga.{newline}
use riptide.Shell.Console.Format.{Texts}
use riptide.Shell.Line.{
  Shell, pop, history_len, on_console, clear_input, remember, after_command, enter, backspace,
  insert, handle_character,
}
use riptide.Shell.Line.Keeps.{
  WellFormed, Keeps-on_console, length-pop, clear_input_kept, Keeps-backspace, Keeps-insert,
}

shortened_kept :
    (full : Bool) (s : Shell)
    → WellFormed s
    → WellFormed (record s { history = if full then pop s.history else s.history })
shortened_kept full s h = record {
  cursor = h.cursor;
  fits = h.fits;
  remembered = ground (arith, length-pop s.history, h.remembered);
}

remembered_kept :
    (s : Shell)
    → WellFormed s × (ltb (length s.history) history_len ≡ true)
    → WellFormed (record s { history = s.input_buffer ∷ s.history })
remembered_kept s h = record {
  cursor = h.0.cursor;
  fits = h.0.fits;
  remembered = ground (arith, h.1);
}

Keeps-remember : Keeps WellFormed remember
unfolding remember
Keeps-remember =
    Keeps-bind (gets (λ (s : Shell). length s.history == history_len)) _
      (Keeps-gets (λ (s : Shell). length s.history == history_len))
      (λ full. Keeps-bind (modify _) _ (Keeps-modify _ (shortened_kept full)) (λ _.
        Triple-bind (gets (λ (s : Shell). ltb (length s.history) history_len)) _
          (Triple-gets (λ (s : Shell). ltb (length s.history) history_len)) (λ room. go room)))
  where
    go :
        (room : Bool)
        → Triple
            (λ (s : Shell). WellFormed s × (ltb (length s.history) history_len ≡ room))
            WellFormed
            (assert room >>= λ _.
              modify λ (s : Shell). record s { history = s.input_buffer ∷ s.history })
            (λ _. WellFormed)
    go true =
        Triple-bind (assert true) _ (Triple-pure tt (λ s h. h))
          (λ _. Triple-modify _ remembered_kept)
    go false = Triple-bind (assert false) _ Triple-panics (λ _. Triple-modify _ remembered_kept)

Keeps-after_command : (done : Bool) → Keeps WellFormed (after_command done)
unfolding after_command
Keeps-after_command true = Keeps-bind (on_console _) _ (Keeps-on_console _) (λ _. Keeps-pure true)
Keeps-after_command false = Keeps-bind (on_console _) _ (Keeps-on_console _) (λ _.
    Keeps-bind remember _ Keeps-remember (λ _.
      Keeps-bind (modify clear_input) _ (Keeps-modify clear_input clear_input_kept)
        (λ _. Keeps-pure false)))

Keeps-enter : (T : Texts) → Keeps WellFormed (enter T)
unfolding enter
Keeps-enter T = Keeps-bind (on_console _) _ (Keeps-on_console _) (λ _.
    Keeps-bind (gets (λ (s : Shell). s.input_buffer)) _ (Keeps-gets (λ (s : Shell). s.input_buffer))
      (λ input.
        Keeps-bind (on_console _) _ (Keeps-on_console _) (λ done. Keeps-after_command done)))

pub Keeps-handle_character :
    (T : Texts) (ctrl : Bool) (c : ℕ) → Keeps WellFormed (handle_character T ctrl c)
unfolding handle_character
Keeps-handle_character T ctrl c = Keeps-if (c == newline) (enter T) _ (Keeps-enter T) (
    Keeps-if (c == 8) _ _
      (Keeps-bind (backspace ctrl) _ (Keeps-backspace ctrl) (λ _. Keeps-pure false))
      (Keeps-bind (insert c) _ (Keeps-insert c) (λ _. Keeps-pure false)))
