-- ===== src/Vga/Loops.antt =====
-- What the loops of `new_line` and `clear_row` (kernel/src/vga.rs) do to the buffer, in one step.
use mathlib.Core.Path.{fun_ext}
use riptide.Prelude.{
  ℕ, zero, suc, ◌+◌, ◌-◌, ◌≤◌, ◌<◌, ◌≡◌, ap, ◌∙◌, ◌&&◌, ltb, leb, ◌==◌, arith, if◌then◌else◌,
}
use riptide.Fs.State.{Outcome, ok, ◌>>=◌}
use riptide.Fs.State.Keeps.{bind-ok, modify_lem}
use riptide.Vga.{
  Writer, Buffer, ScreenChar, buffer_height, buffer_width, blank_cell, copy_row, copy_rows,
  clear_cells, clear_row, new_line, read_cell, write_cell, set_buffer,
}

read_cell_in :
    (row col : ℕ) (w : Writer)
    → row < buffer_height
    → col < buffer_width
    → read_cell row col w ≡ (ok (w.buffer row col), w)
unfolding read_cell ◌>>=◌
read_cell_in row col w h k = ground arith

pub write_cell_in :
    (row col : ℕ) (v : ScreenChar) (w : Writer)
    → row < buffer_height
    → col < buffer_width
    → write_cell row col v w ≡ (ok tt, record w { buffer = set_buffer row col v w.buffer })
unfolding write_cell ◌>>=◌
write_cell_in row col v w h k = ground arith

pub with_buffer :
    (w : Writer) (a b : Buffer)
    → a ≡ b
    → Path
        (Outcome (Unit {0}) × Writer)
        (ok tt, record w { buffer = a })
        (ok tt, record w { buffer = b })
with_buffer w a b e = ap (λ (x : Buffer). (ok tt, record w { buffer = x })) e

-- A row whose cells from a column on are those of the next row.
abbrev row_copied : ℕ → ℕ → Buffer → Buffer
row_copied row col b r c =
    if r == row - 1 && (leb col c && ltb c buffer_width) then b row c else b r c

row_copied_step :
    (row col : ℕ) (b : Buffer)
    → 1 ≤ row
    → col < buffer_width
    → row_copied row (col + 1) (set_buffer (row - 1) col (b row col) b) ≡ row_copied row col b
row_copied_step row col b h k = fun_ext λ r. fun_ext λ c. row_copied_at r c
  where
    row_copied_at :
        (r c : ℕ)
        → row_copied row (col + 1) (set_buffer (row - 1) col (b row col) b) r c
          ≡ row_copied row col b r c
    row_copied_at r c = ground arith

copy_row_lem :
    (left row col : ℕ) (w : Writer)
    → 1 ≤ row
    → row < buffer_height
    → col + left ≡ buffer_width
    → copy_row left row col w ≡ (ok tt, record w { buffer = row_copied row col w.buffer })
unfolding copy_row ◌>>=◌
copy_row_lem zero row col w h k e =
    with_buffer w w.buffer (row_copied row col w.buffer) (fun_ext λ r. fun_ext λ c. ground arith)
copy_row_lem (suc left) row col w h k e =
    let inside : col < buffer_width = omega arith in
    rw
      (
        read_cell_in row col w k inside,
        write_cell_in (row - 1) col (w.buffer row col) w (omega arith) inside,
      )
      (copy_row_lem left row (col + 1) _ h k (omega arith)
        ∙ with_buffer w _ _ (row_copied_step row col w.buffer h inside))

-- The rows from the one above a row on are those below them.
abbrev rows_copied : ℕ → Buffer → Buffer
rows_copied row b r c =
    if leb row (r + 1) && (ltb r (buffer_height - 1) && ltb c buffer_width)
    then b (r + 1) c
    else b r c

rows_copied_step :
    (row : ℕ) (b : Buffer)
    → 1 ≤ row
    → row < buffer_height
    → rows_copied (row + 1) (row_copied row 0 b) ≡ rows_copied row b
rows_copied_step row b h k = fun_ext λ r. fun_ext λ c. at r c
  where
    at : (r c : ℕ) → rows_copied (row + 1) (row_copied row 0 b) r c ≡ rows_copied row b r c
    at r c = ground arith

copy_rows_lem :
    (left row : ℕ) (w : Writer)
    → 1 ≤ row
    → row + left ≡ buffer_height
    → copy_rows left row w ≡ (ok tt, record w { buffer = rows_copied row w.buffer })
unfolding copy_rows ◌>>=◌
copy_rows_lem zero row w h e =
    with_buffer w w.buffer (rows_copied row w.buffer) (fun_ext λ r. fun_ext λ c. ground arith)
copy_rows_lem (suc left) row w h e =
    let inside : row < buffer_height = omega arith in
    rw (copy_row_lem buffer_width row 0 w h inside (omega arith)) (
      copy_rows_lem left (row + 1) _ (omega arith) (omega arith)
      ∙ with_buffer w _ _ (rows_copied_step row w.buffer h inside))

-- A row that is blank from a column on.
abbrev pub row_cleared : ScreenChar → ℕ → ℕ → Buffer → Buffer
row_cleared blank row col b r c =
    if r == row && (leb col c && ltb c buffer_width) then blank else b r c

pub row_cleared_step :
    (blank : ScreenChar) (row col : ℕ) (b : Buffer)
    → col < buffer_width
    → row_cleared blank row (col + 1) (set_buffer row col blank b) ≡ row_cleared blank row col b
row_cleared_step blank row col b k = fun_ext λ r. fun_ext λ c. at r c
  where
    at :
        (r c : ℕ)
        → row_cleared blank row (col + 1) (set_buffer row col blank b) r c
          ≡ row_cleared blank row col b r c
    at r c = ground arith

clear_cells_lem :
    (left : ℕ) (blank : ScreenChar) (row col : ℕ) (w : Writer)
    → row < buffer_height
    → col + left ≡ buffer_width
    → clear_cells left blank row col w
      ≡ (ok tt, record w { buffer = row_cleared blank row col w.buffer })
unfolding clear_cells ◌>>=◌
clear_cells_lem zero blank row col w k e =
    with_buffer w w.buffer (row_cleared blank row col w.buffer)
      (fun_ext λ r. fun_ext λ c. ground arith)
clear_cells_lem (suc left) blank row col w k e =
    let inside : col < buffer_width = omega arith in
    rw (write_cell_in row col blank w k inside) (
      clear_cells_lem left blank row (col + 1) _ k (omega arith)
      ∙ with_buffer w _ _ (row_cleared_step blank row col w.buffer inside))

-- The screen after a new line: each row is the next one, and the last is blank.
abbrev pub scrolled : ℕ → Buffer → Buffer
scrolled color b r c =
    if ltb c buffer_width
    then if ltb r (buffer_height - 1)
      then b (r + 1) c
      else if r == buffer_height - 1
      then blank_cell color
      else b r c
    else b r c

scrolled_lem :
    (color : ℕ) (b : Buffer)
    → row_cleared (blank_cell color) (buffer_height - 1) 0 (rows_copied 1 b) ≡ scrolled color b
scrolled_lem color b = fun_ext λ r. fun_ext λ c. at r c
  where
    at :
        (r c : ℕ)
        → row_cleared (blank_cell color) (buffer_height - 1) 0 (rows_copied 1 b) r c
          ≡ scrolled color b r c
    at r c = ground arith

clear_row_lem :
    (row : ℕ) (w : Writer)
    → row < buffer_height
    → clear_row row w
      ≡ (ok tt, record w { buffer = row_cleared (blank_cell w.color_code) row 0 w.buffer })
unfolding clear_row ◌>>=◌
clear_row_lem row w k =
    clear_cells_lem buffer_width (blank_cell w.color_code) row 0 w k (omega arith)

new_line_from :
    (w : Writer)
    → copy_rows (buffer_height - 1) 1 w ≡ (ok tt, record w { buffer = rows_copied 1 w.buffer })
    → new_line w ≡ (
      ok tt,
      record w {
        column_position = 0;
        buffer =
            row_cleared (blank_cell w.color_code) (buffer_height - 1) 0 (rows_copied 1 w.buffer);
      },
    )
unfolding new_line
new_line_from w e =
    bind-ok (copy_rows (buffer_height - 1) 1) _ w e
    ∙ bind-ok (clear_row (buffer_height - 1)) _ _
        (clear_row_lem (buffer_height - 1) _ (omega arith))
    ∙ modify_lem _ _

-- `new_line` moves each row up by one, blanks the last row in the current color, and goes to its
-- start; no index that it uses is out of bounds.
pub new_line_lem :
    (w : Writer)
    → new_line w
      ≡ (ok tt, record w { column_position = 0; buffer = scrolled w.color_code w.buffer })
new_line_lem w =
    new_line_from w (copy_rows_lem (buffer_height - 1) 1 w (omega arith) (omega arith))
    ∙ ap (λ (x : Buffer). (ok tt, record w { column_position = 0; buffer = x }))
        (scrolled_lem w.color_code w.buffer)
