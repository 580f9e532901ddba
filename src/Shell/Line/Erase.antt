-- ===== src/Shell/Line/Erase.antt =====
-- What backspace does to the screen (kernel/src/shell/mod.rs): the rest of the row is blanked, and
-- the row does not scroll, though the last column is written.
use mathlib.Core.Path.{fun_ext}
use riptide.Prelude.{
  ℕ, zero, suc, ◌+◌, ◌-◌, ◌≤◌, ◌<◌, ◌≡◌, refl, sym, ap, ◌∙◌, true, List, ◌++◌, codes, length, ltb,
  arith,
}
use riptide.Fs.State.{Outcome, ok, ◌>>=◌}
use riptide.Fs.State.Keeps.{bind-ok}
use riptide.Vga.{
  Buffer, PortWrite, ScreenChar, buffer_height, buffer_width, blank_cell, set_column_position,
  set_cursor_position,
}
use riptide.Vga.Loops.{row_cleared, row_cleared_step}
use riptide.Vga.Screen.{typed}
use riptide.Vga.Typing.{write_string-one}
use riptide.Shell.Console.{Console, on_writer, to_ports, print}
use riptide.Shell.Line.{prompt, add_u8, print_blanks, erase_from}

abbrev on_screen : ℕ → Buffer → Console → Console
on_screen column b s = record s {
  writer = record s.writer { column_position = column; buffer = b };
}

print_one :
    (s : Console)
    → s.writer.column_position < buffer_width
    → print (codes " ") s ≡ (ok tt, record s { writer = typed b' ' s.writer })
unfolding print on_writer
print_one s free = rw (write_string-one b' ' s.writer refl free) refl

row_cleared-nothing :
    (blank : ScreenChar) (row : ℕ) (b : Buffer) → b ≡ row_cleared blank row buffer_width b
row_cleared-nothing blank row b = fun_ext λ r. fun_ext λ c. ground arith

nothing_printed :
    (s : Console)
    → s.writer.column_position ≡ buffer_width
    → Path
        (Outcome (Unit {0}) × Console)
        (ok tt, s)
        (
          ok tt,
          on_screen buffer_width
              (row_cleared
                (blank_cell s.writer.color_code)
                (buffer_height - 1)
                s.writer.column_position
                s.writer.buffer)
              s,
        )
nothing_printed s full =
    ap (λ (c : ℕ). (ok tt, on_screen c s.writer.buffer s)) full
    ∙ ap (λ (b : Buffer). (ok tt, on_screen buffer_width b s))
        (row_cleared-nothing (blank_cell s.writer.color_code) (buffer_height - 1) s.writer.buffer)
    ∙ ap
        (λ (c : ℕ). (
          ok tt,
          on_screen buffer_width
              (row_cleared (blank_cell s.writer.color_code) (buffer_height - 1) c s.writer.buffer)
              s,
        ))
        (sym full)

print_blanks_lem :
    (count : ℕ) (s : Console)
    → s.writer.column_position + count ≡ buffer_width
    → print_blanks count s ≡ (
      ok tt,
      on_screen buffer_width
          (row_cleared
            (blank_cell s.writer.color_code)
            (buffer_height - 1)
            s.writer.column_position
            s.writer.buffer)
          s,
    )
unfolding print_blanks
print_blanks_lem zero s e = unfold ◌>>=◌ in nothing_printed s (omega (arith, e))
print_blanks_lem (suc count) s e =
    let free : s.writer.column_position < buffer_width = omega (arith, e) in
    let blank = blank_cell s.writer.color_code in
    bind-ok (print (codes " ")) (λ _. print_blanks count) s (print_one s free)
    ∙ print_blanks_lem count (record s { writer = typed b' ' s.writer }) (omega (arith, e))
    ∙ ap (λ (b : Buffer). (ok tt, on_screen buffer_width b s))
        (row_cleared_step blank (buffer_height - 1) s.writer.column_position s.writer.buffer free)

set_column_lem :
    (col : ℕ) (s : Console)
    → col ≤ buffer_width
    → on_writer (set_column_position col) s ≡ (ok tt, on_screen col s.writer.buffer s)
unfolding on_writer set_column_position ◌>>=◌
set_column_lem col s h = ap (λ (c : ℕ). (ok tt, on_screen c s.writer.buffer s)) (omega (arith, h))

pub add_u8_small : {S : Type 0} (a b : ℕ) (s : S) → a + b < 256 → add_u8 a b s ≡ (ok (a + b), s)
unfolding add_u8 ◌>>=◌
add_u8_small a b s h = let small : ltb (a + b) 256 ≡ true = ground arith in rw small refl

pub to_ports_lem :
    (ws : List PortWrite) (s : Console)
    → to_ports ws s ≡ (ok tt, record s { ports = s.ports ++ ws })
unfolding to_ports ◌>>=◌
to_ports_lem ws s = refl

-- The console behind backspace, with the cursor at `cursor`.
abbrev pub erased_console : ℕ → Console → Console
erased_console cursor s = record s {
  writer = record s.writer {
    column_position = length prompt + cursor;
    buffer =
        row_cleared (blank_cell s.writer.color_code) (buffer_height - 1) (length prompt + cursor)
          s.writer.buffer;
  };
  ports = s.ports ++ set_cursor_position (length prompt + cursor) (buffer_height - 1);
}

-- With the cursor within the row, what backspace prints blanks the bottom row from the cursor's column
-- on and leaves every other cell; the writer and the cursor are at that column, and nothing panics.
pub erase_from_lem :
    (cursor : ℕ) (s : Console)
    → length prompt + cursor ≤ buffer_width
    → erase_from cursor s ≡ (ok tt, erased_console cursor s)
unfolding erase_from
erase_from_lem cursor s h =
    let col = length prompt + cursor in
    let at_col : Console = on_screen col s.writer.buffer s in
    let blanked : Console =
      on_screen buffer_width
        (row_cleared (blank_cell s.writer.color_code) (buffer_height - 1) col s.writer.buffer) s in
    bind-ok (add_u8 (length prompt) cursor) _ s
      (add_u8_small (length prompt) cursor s (omega (arith, h)))
    ∙ bind-ok (on_writer (set_column_position col)) _ s (set_column_lem col s h)
    ∙ bind-ok (print_blanks (buffer_width - col)) _ at_col
        (print_blanks_lem (buffer_width - col) at_col (omega (arith, h)))
    ∙ bind-ok (on_writer (set_column_position col)) _ blanked (set_column_lem col blanked h)
    ∙ to_ports_lem (set_cursor_position col (buffer_height - 1))
        (on_screen col blanked.writer.buffer s)
