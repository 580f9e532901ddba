-- ===== src/Shell/Line/Typing.antt =====
-- The keys that edit the line, and the bottom row (kernel/src/shell/mod.rs).
use riptide.Prelude.{
  ℕ, ◌+◌, ◌-◌, ◌<◌, ◌≡◌, refl, sym, ap, ◌∙◌, Bool, true, false, ◌||◌, some, [], ◌∷◌, ◌++◌, length,
  length-append, ◌==◌, arith, Option-cases, Bool-cases, inl, inr,
}
use riptide.Fs.State.{ok, pure, gets}
use riptide.Fs.State.Keeps.{bind-ok, gets_lem, pure_lem}
use riptide.Vga.{buffer_width, newline, is_printable}
use riptide.Vga.Screen.{typed}
use riptide.Vga.Typing.{write_string-one}
use riptide.Shell.Console.{Console, print, on_writer}
use riptide.Shell.Console.Format.{Texts}
use riptide.Shell.Line.{
  Shell, InputBuffer, prompt, utf8, push, pop, backspace, insert, handle_character,
}
use riptide.Shell.Line.Keeps.{WellFormed, length-pop}
use riptide.Shell.Line.Keys.{backspaced, backspace_lem, appended, append_lem, pushed-room}
use riptide.Shell.Line.Shown.{LineShown, cell_at, pop-prefix, erased_row, typed_row}

backspaced-LineShown :
    (ctrl : Bool) (s : Shell) → WellFormed s → LineShown s → LineShown (backspaced ctrl s)
backspaced-LineShown true s h shown = record {
  cells = λ i inside.
      erased_row i (length prompt + 0) s.console.writer.color_code s.console.writer.buffer prompt []
        s.input_buffer inside (omega arith) (shown.cells i inside);
  column = omega arith;
}
backspaced-LineShown false s h shown =
    let r = pop-prefix s.input_buffer in
    let popped : length (pop s.input_buffer) ≡ s.cursor_position - 1 =
      omega (arith, length-pop s.input_buffer, h.cursor) in
    record {
      cells = λ i inside.
          erased_row i (length prompt + (s.cursor_position - 1)) s.console.writer.color_code
            s.console.writer.buffer prompt (pop s.input_buffer) r.0 inside (omega (arith, popped))
            (shown.cells i inside ∙ ap (λ (xs : InputBuffer). cell_at i (prompt ++ xs)) r.1);
      column = omega (arith, popped);
    }

utf8-printable : (c : ℕ) → is_printable c ≡ true → utf8 c ≡ c ∷ []
unfolding utf8
utf8-printable c p = ground (arith, p)

push-same : (c : ℕ) (input cs : InputBuffer) → push c cs ≡ some input → input ≡ cs ++ c ∷ []
unfolding push
push-same c input cs e = ground (arith, e)

print_one :
    (c : ℕ) (s : Console)
    → is_printable c ≡ true
    → s.writer.column_position < buffer_width
    → print (utf8 c) s ≡ (ok tt, record s { writer = typed c s.writer })
unfolding print on_writer
print_one c s p free = rw (utf8-printable c p) (rw (write_string-one c s.writer p free) refl)

appended-LineShown :
    (c : ℕ) (input : InputBuffer) (s : Shell)
    → push c s.input_buffer ≡ some input
    → LineShown s
    → LineShown (appended input (typed c s.console.writer) s)
appended-LineShown c input s e shown =
    let same = push-same c input s.input_buffer e in
    let w = s.console.writer in
    record {
      cells = λ i inside.
          typed_row i w.column_position c w.color_code w.buffer prompt s.input_buffer shown.column
            (shown.cells i inside)
          ∙ ap (λ (xs : InputBuffer). cell_at i (prompt ++ xs)) (sym same);
      column =
          let longer = ap length same ∙ length-append s.input_buffer (c ∷ []) in
          omega (arith, longer, shown.column);
    }

-- Where the bottom row shows the prompt and the line, a printable key that fits, one that does not,
-- backspace, and backspace with ctrl each lead back to the loop, and the bottom row again shows the
-- prompt and the line that is then in the buffer, with the writer behind them.
pub handle_character-LineShown :
    (T : Texts) (ctrl : Bool) (c : ℕ) (s : Shell)
    → WellFormed s
    → LineShown s
    → (c == 8 || is_printable c) ≡ true
    → (s2 : Shell) × (handle_character T ctrl c s ≡ (ok false, s2)) × LineShown s2
unfolding handle_character insert
handle_character-LineShown T ctrl c s h shown key =
    let visible : (c == newline) ≡ false = ground (arith, key) in
    elim (Bool-cases (c == 8)) [
      | inl e ↦ (
        backspaced ctrl s,
        rw visible (
            rw e (
              bind-ok (backspace ctrl) (λ _. pure false) s (backspace_lem ctrl s h)
              ∙ pure_lem false (backspaced ctrl s))),
        backspaced-LineShown ctrl s h shown,
      )
      | inr e ↦
          let p : is_printable c ≡ true = ground (arith, key, e) in
          elim (Option-cases (push c s.input_buffer)) [
            | inl f ↦ (
              s,
              rw visible (
                  rw e (
                    bind-ok (insert c) (λ _. pure false) s
                      (bind-ok (gets λ (s : Shell). push c s.input_buffer) _ s (gets_lem _ s)
                        ∙ rw f (pure_lem tt s))
                    ∙ pure_lem false s)),
              shown,
            )
            | inr f ↦
                let w = typed c s.console.writer in
                let room = pushed-room c f.0 s h f.1 in
                let printed =
                  print_one c s.console p (omega (arith, shown.column, h.cursor, room)) in
                let s2 = appended f.0 w s in
                (
                  s2,
                  rw visible (
                      rw e (
                        bind-ok (insert c) (λ _. pure false) s
                          (bind-ok (gets λ (s : Shell). push c s.input_buffer) _ s (gets_lem _ s)
                            ∙ rw f.1 (append_lem c f.0 s w room printed))
                        ∙ pure_lem false s2)),
                  appended-LineShown c f.0 s f.1 shown,
                )
          ]
    ]
