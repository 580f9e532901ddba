-- ===== src/Shell/Run/Tests.antt =====
-- A run of the shell with a keyboard that decodes each scancode as a character.
use riptide.Prelude.{ap}
use riptide.Prelude.{ℕ, ◌≡◌, refl, Bool, false, some, [], ◌∷◌}
use riptide.Fs.State.{Outcome, ok, boot, ◌>>=◌}
use riptide.Vga.{
  blank_cell, write_string, write_byte, write_cell, shown, set_cursor_position, set_column_position,
  enable_cursor,
}
use riptide.Shell.Console.{Console, on_writer, print, to_ports}
use riptide.Shell.Console.Format.{Texts}
use riptide.Shell.Line.{
  Shell, on_console, print_prompt, handle_character, backspace, insert, append, push, pop, text_of,
  utf8, add_u8, erase_from, print_blanks,
}
use riptide.Shell.Line.Keeps.{WellFormed}
use riptide.Shell.Run.{Keyboard, unicode, decode, handle_key, handle_scancodes, new_shell, run}
use riptide.Shell.Run.Lines.{run-WellFormed}

abbrev ascii : Keyboard
ascii = record {
  State = Unit;
  Event = ℕ;
  new = tt;
  add_byte = λ c k. (some c, k);
  process_keyevent = λ c k. (some (unicode c), k);
  is_ctrl = λ k. false;
}

abbrev texts : Texts
texts = record { debug_str = λ s. s; from_utf8_lossy = λ s. s }

abbrev console : Console
console = record {
  vfs = boot;
  writer = record { column_position = 0; color_code = 15; buffer = λ r c. blank_cell 15 };
  ports = [];
}

-- `l`, `s` and backspace.
abbrev typed : Outcome Bool × Shell
typed = run texts ascii 0 0 (b'l' ∷ b's' ∷ 8 ∷ []) (new_shell texts ascii console)

typed-ok : typed.0 ≡ ok false
unfolding run handle_scancodes handle_key decode handle_character backspace insert append push pop
    text_of utf8 add_u8 erase_from print_blanks on_console print_prompt print to_ports on_writer
    write_string write_byte write_cell shown set_cursor_position set_column_position enable_cursor
    ◌>>=◌
typed-ok = refl

pair : {A S : Type 0} (r : Outcome A × S) (a : A) → r.0 ≡ ok a → r ≡ (ok a, r.1)
pair r a e = ap (λ (o : Outcome _). (o, r.1)) e

run-WellFormed_example : WellFormed typed.1
run-WellFormed_example =
    run-WellFormed texts ascii 0 0 (b'l' ∷ b's' ∷ 8 ∷ []) console false typed.1
      (pair typed false typed-ok)
