-- ===== src/Vga.antt =====
-- The text mode driver (kernel/src/vga.rs): the writer, its buffer of 25 rows of 80 cells, and what
-- goes to the ports of the cursor. Interrupts are off in each call, so that calls do not overlap.
pub mod Loops
mod Tests
pub mod Screen
pub mod Typing
pub mod Colored
use Prim.Native.Nat.{bit_or, bit_and}
use riptide.Prelude.{
  ℕ, zero, suc, ◌+◌, ◌-◌, ◌*◌, ◌/◌, ◌%◌, Bool, true, false, ◌&&◌, ◌||◌, List, [], ◌∷◌, Bytes, ltb,
  leb, ◌==◌, min, if◌then◌else◌,
}
use riptide.Fs.State.{Act, ok, pure, panics, gets, modify, ◌>>=◌, ◌>>◌}

abbrev pub buffer_height : ℕ
buffer_height = 25

abbrev pub buffer_width : ℕ
buffer_width = 80

-- `struct ScreenChar`
pub record ScreenChar : Type 0 where
  pub ascii_character : ℕ
  pub color_code : ℕ

-- `struct Buffer`; an index is checked where a cell is read or written
abbrev pub Buffer : Type 0
Buffer = ℕ → ℕ → ScreenChar

-- `struct Writer`
pub record Writer : Type 0 where
  pub column_position : ℕ
  pub color_code : ℕ
  pub buffer : Buffer

-- `enum Color`
pub data Color : Type 0 where
  black blue green cyan red magenta brown light_gray : Color
  dark_gray light_blue light_green light_cyan light_red pink yellow white : Color

-- `as u8`
unfoldable pub color_value : Color → ℕ
color_value black = 0
color_value blue = 1
color_value green = 2
color_value cyan = 3
color_value red = 4
color_value magenta = 5
color_value brown = 6
color_value light_gray = 7
color_value dark_gray = 8
color_value light_blue = 9
color_value light_green = 10
color_value light_cyan = 11
color_value light_red = 12
color_value pink = 13
color_value yellow = 14
color_value white = 15

-- `ColorCode::new`
unfoldable pub color_code_of : Color → Color → ℕ
unfolding color_value
color_code_of foreground background =
    bit_or (color_value background * 16 % 256) (color_value foreground)

-- `From<Color> for ColorCode`
unfoldable pub on_black : Color → ℕ
unfolding color_code_of
on_black c = color_code_of c black

-- `WRITER`, for what the boot loader leaves on the screen
abbrev pub initial_writer : Buffer → Writer
initial_writer buffer = record {
  column_position = 0;
  color_code = color_code_of white black;
  buffer = buffer;
}

abbrev is_cell : ℕ → ℕ → Bool
is_cell row col = ltb row buffer_height && ltb col buffer_width

abbrev pub set_buffer : ℕ → ℕ → ScreenChar → Buffer → Buffer
set_buffer row col v b r c = if r == row && c == col then v else b r c

-- `self.buffer.chars[row][col].read()`
unfoldable pub read_cell : ℕ → ℕ → Act Writer ScreenChar
read_cell row col = if is_cell row col then gets (λ w. w.buffer row col) else panics

-- `self.buffer.chars[row][col].write(v)`
unfoldable pub write_cell : ℕ → ℕ → ScreenChar → Act Writer (Unit {0})
write_cell row col v =
    if is_cell row col
    then modify (λ w. record w { buffer = set_buffer row col v w.buffer })
    else panics

-- The inner loop of `new_line`, on the columns that are left, from `col` on.
unfoldable pub copy_row : ℕ → ℕ → ℕ → Act Writer (Unit {0})
unfolding read_cell write_cell
copy_row zero row col = pure tt
copy_row (suc left) row col = do
  character ← read_cell row col
  write_cell (row - 1) col character
  copy_row left row (col + 1)

-- The outer loop, on the rows that are left, from `row` on.
unfoldable pub copy_rows : ℕ → ℕ → Act Writer (Unit {0})
copy_rows zero row = pure tt
copy_rows (suc left) row = do copy_row buffer_width row 0; copy_rows left (row + 1)

-- The loop of `clear_row`.
unfoldable pub clear_cells : ℕ → ScreenChar → ℕ → ℕ → Act Writer (Unit {0})
unfolding write_cell
clear_cells zero blank row col = pure tt
clear_cells (suc left) blank row col = do
  write_cell row col blank
  clear_cells left blank row (col + 1)

abbrev pub blank_cell : ℕ → ScreenChar
blank_cell color = record { ascii_character = b' '; color_code = color }

-- `clear_row`
unfoldable pub clear_row : ℕ → Act Writer (Unit {0})
clear_row row = do
  color ← gets (λ w. w.color_code)
  clear_cells buffer_width (blank_cell color) row 0

-- `new_line`
unfoldable pub new_line : Act Writer (Unit {0})
new_line = do
  copy_rows (buffer_height - 1) 1
  clear_row (buffer_height - 1)
  modify λ w. record w { column_position = 0 }

abbrev pub newline : ℕ
newline = 10

-- `write_byte`
unfoldable pub write_byte : ℕ → Act Writer (Unit {0})
write_byte byte = if byte == newline then new_line else do
  full ← gets (λ w. leb buffer_width w.column_position)
  if full then new_line else pure tt
  col ← gets (λ w. w.column_position)
  color ← gets (λ w. w.color_code)
  write_cell (buffer_height - 1) col (record { ascii_character = byte; color_code = color })
  modify λ w. record w { column_position = w.column_position + 1 }

abbrev pub is_printable : ℕ → Bool
is_printable c = leb 0x20 c && leb c 0x7e

-- The byte that is written for a byte of a text.
unfoldable pub shown : ℕ → ℕ
shown c = if is_printable c || c == newline then c else 0xfe

-- `write_string`
unfoldable pub write_string : Bytes → Act Writer (Unit {0})
write_string [] = pure tt
write_string (c ∷ s) = do write_byte (shown c); write_string s

-- `set_color_code`
unfoldable pub set_color_code : ℕ → Act Writer (Unit {0})
set_color_code color = modify λ w. record w { color_code = color }

-- `with_color`; what runs inside must end for the old color to come back
unfoldable pub with_color : {A : Type 0} → ℕ → Act Writer A → Act Writer A
unfolding set_color_code
with_color color f = do
  old ← gets (λ w. w.color_code)
  set_color_code color
  res ← f
  set_color_code old
  pure res

-- `set_column_position`
unfoldable pub set_column_position : ℕ → Act Writer (Unit {0})
set_column_position position = modify λ w. record w { column_position = min position buffer_width }

-- A byte that is written to a port.
pub record PortWrite : Type 0 where
  pub port : ℕ
  pub value : ℕ

abbrev pub command : ℕ → PortWrite
command v = record { port = 0x3D4; value = v }

abbrev pub datum : ℕ → PortWrite
datum v = record { port = 0x3D5; value = v }

-- `set_cursor_position`: the bytes of `y * 80 + x`, which fits into 16 bits
unfoldable pub set_cursor_position : ℕ → ℕ → List PortWrite
set_cursor_position x y =
    let pos = y * buffer_width + x in
    command 0x0F ∷ datum (pos % 256) ∷ command 0x0E ∷ datum (pos / 256 % 256) ∷ []

-- `enable_cursor`; the first two arguments are what the data port gives when it is read
unfoldable pub enable_cursor : ℕ → ℕ → ℕ → ℕ → List PortWrite
enable_cursor s e start end =
    command 0x0A
    ∷ datum (bit_or (bit_and s 0xC0) start)
    ∷ command 0x0B
    ∷ datum (bit_or (bit_and e 0xE0) end)
    ∷ []

-- `disable_cursor`
unfoldable pub disable_cursor : List PortWrite
disable_cursor = command 0x0A ∷ datum 0x20 ∷ []
