-- ===== src/Vga/Screen.antt =====
-- What is on the screen: the last rows of an endless sheet that is typed on (kernel/src/vga.rs,
-- `write_string`).
use riptide.Prelude.{
  ℕ, zero, suc, ◌+◌, ◌-◌, ◌≤◌, ◌<◌, ◌≡◌, refl, ap, ◌∙◌, true, false, [], ◌∷◌, Bytes, leb, ◌==◌,
  arith, if◌then◌else◌, Bool-cases, inl, inr,
}
use riptide.Fs.State.{gets, modify, pure, ◌>>◌, Act, ok, ◌>>=◌}
use riptide.Fs.State.Keeps.{bind-ok}
use riptide.Vga.{
  Writer, Buffer, ScreenChar, buffer_height, buffer_width, blank_cell, newline, new_line,
  write_cell, write_byte, write_string, shown, set_buffer,
}
use riptide.Vga.Loops.{new_line_lem, write_cell_in, scrolled}

-- The sheet: its rows from the one that is typed on back to the first, and where to type.
pub record Sheet : Type 0 where
  pub rows : ℕ → ℕ → ScreenChar
  pub column : ℕ
  pub color : ℕ

-- A fresh row.
unfoldable pub feed : Sheet → Sheet
feed t = record t { rows = next; column = 0 }
  where
    next : ℕ → ℕ → ScreenChar
    next zero = λ c. blank_cell t.color
    next (suc k) = t.rows k

abbrev put_cell : ℕ → ScreenChar → (ℕ → ℕ → ScreenChar) → ℕ → ℕ → ScreenChar
put_cell col v rows zero c = if c == col then v else rows 0 c
put_cell col v rows (suc k) c = rows (suc k) c

abbrev put : ℕ → Sheet → Sheet
put byte t = record t {
  rows = put_cell t.column (record { ascii_character = byte; color_code = t.color }) t.rows;
  column = t.column + 1;
}

-- One byte: a newline feeds, and so does any other byte behind the last column.
unfoldable pub type_byte : ℕ → Sheet → Sheet
unfolding feed
type_byte byte t =
    if byte == newline then feed t else put byte (if leb buffer_width t.column then feed t else t)

unfoldable pub type_string : Bytes → Sheet → Sheet
unfolding type_byte
type_string [] t = t
type_string (c ∷ s) t = type_string s (type_byte (shown c) t)

-- The buffer shows the last rows of the sheet.
pub record Shows (w : Writer) (t : Sheet) : Type 0 where
  pub cells :
      (k c : ℕ)
      → k < buffer_height
      → c < buffer_width
      → w.buffer (buffer_height - 1 - k) c ≡ t.rows k c
  pub columns : w.column_position ≡ t.column
  pub colors : w.color_code ≡ t.color
  pub within : w.column_position ≤ buffer_width

-- The state after a call that returns.
abbrev fed : Writer → Writer
fed w = record w { column_position = 0; buffer = scrolled w.color_code w.buffer }

scrolled_last :
    (color : ℕ) (b : Buffer) (c : ℕ)
    → c < buffer_width
    → scrolled color b (buffer_height - 1) c ≡ blank_cell color
scrolled_last color b c j = ground arith

scrolled_above :
    (color : ℕ) (b : Buffer) (r c : ℕ)
    → r < buffer_height - 1
    → c < buffer_width
    → scrolled color b r c ≡ b (r + 1) c
scrolled_above color b r c i j = ground arith

fed-Shows : (w : Writer) (t : Sheet) → Shows w t → Shows (fed w) (feed t)
unfolding feed
fed-Shows w t h = record { cells = at; columns = refl; colors = h.colors; within = omega arith }
  where
    at :
        (k c : ℕ)
        → k < buffer_height
        → c < buffer_width
        → (fed w).buffer (buffer_height - 1 - k) c ≡ (feed t).rows k c
    at zero c i j = scrolled_last w.color_code w.buffer c j ∙ ap (λ (x : ℕ). blank_cell x) h.colors
    at (suc k) c i j =
        scrolled_above w.color_code w.buffer (buffer_height - 1 - suc k) c (omega arith) j
        ∙ ap (λ (r : ℕ). w.buffer r c) (omega arith)
        ∙ h.cells k c (omega arith) j

abbrev pub typed : ℕ → Writer → Writer
typed byte w = record w {
  column_position = w.column_position + 1;
  buffer =
      set_buffer (buffer_height - 1) w.column_position
        (record { ascii_character = byte; color_code = w.color_code }) w.buffer;
}

typed_last :
    (byte : ℕ) (w : Writer) (t : Sheet) (c : ℕ)
    → Shows w t
    → (typed byte w).buffer (buffer_height - 1) c ≡ (
        if c == t.column
        then record { ascii_character = byte; color_code = t.color }
        else w.buffer (buffer_height - 1) c)
typed_last byte w t c h = ground (arith, h.columns, h.colors)

typed_above :
    (byte : ℕ) (w : Writer) (k c : ℕ)
    → suc k < buffer_height
    → (typed byte w).buffer (buffer_height - 1 - suc k) c ≡ w.buffer (buffer_height - 1 - suc k) c
typed_above byte w k c i = ground arith

typed-Shows :
    (byte : ℕ) (w : Writer) (t : Sheet)
    → w.column_position < buffer_width
    → Shows w t
    → Shows (typed byte w) (put byte t)
typed-Shows byte w t i h = record {
  cells = at;
  columns = omega (arith, h.columns);
  colors = h.colors;
  within = omega arith;
}
  where
    at :
        (k c : ℕ)
        → k < buffer_height
        → c < buffer_width
        → (typed byte w).buffer (buffer_height - 1 - k) c ≡ (put byte t).rows k c
    at zero c i j =
        typed_last byte w t c h
        ∙ ap
            (λ (x : ScreenChar).
              if c == t.column then record { ascii_character = byte; color_code = t.color } else x)
            (h.cells 0 c i j)
    at (suc k) c i j = typed_above byte w k c i ∙ h.cells (suc k) c i j

-- The call returns, and the screen still shows the sheet.
abbrev pub Refines : Act Writer (Unit {0}) → Writer → Sheet → Type 0
Refines m w t = (w2 : Writer) × (m w ≡ (ok tt, w2)) × Shows w2 t

new_line-Refines : (w : Writer) (t : Sheet) → Shows w t → Refines new_line w (feed t)
new_line-Refines w t h = (fed w, new_line_lem w, fed-Shows w t h)

-- The end of `write_byte`, at a column that is free.
put_byte : ℕ → Act Writer (Unit {0})
put_byte byte = do
  col ← gets (λ w. w.column_position)
  color ← gets (λ w. w.color_code)
  write_cell (buffer_height - 1) col (record { ascii_character = byte; color_code = color })
  modify λ w. record w { column_position = w.column_position + 1 }

put_byte-Refines :
    (byte : ℕ) (w : Writer) (t : Sheet)
    → w.column_position < buffer_width
    → Shows w t
    → Refines (put_byte byte) w (put byte t)
unfolding put_byte ◌>>=◌
put_byte-Refines byte w t i h = (
  typed byte w,
  rw
      (write_cell_in (buffer_height - 1) w.column_position
        (record { ascii_character = byte; color_code = w.color_code }) w (omega arith) i)
      refl,
  typed-Shows byte w t i h,
)

-- What `write_byte` does with a byte that is no newline.
write_visible : ℕ → Act Writer (Unit {0})
unfolding put_byte
write_visible byte = do
  full ← gets (λ w. leb buffer_width w.column_position)
  if full then new_line else pure tt
  put_byte byte

write_visible-full :
    (byte : ℕ) (w : Writer)
    → leb buffer_width w.column_position ≡ true
    → write_visible byte w ≡ put_byte byte (fed w)
unfolding write_visible ◌>>=◌
write_visible-full byte w f = rw f (bind-ok new_line (λ _. put_byte byte) w (new_line_lem w))

write_visible-free :
    (byte : ℕ) (w : Writer)
    → leb buffer_width w.column_position ≡ false
    → write_visible byte w ≡ put_byte byte w
unfolding write_visible ◌>>=◌
write_visible-free byte w f = rw f refl

write_visible-Refines :
    (byte : ℕ) (w : Writer) (t : Sheet)
    → Shows w t
    → Refines (write_visible byte) w (put byte (if leb buffer_width t.column then feed t else t))
write_visible-Refines byte w t h = elim (Bool-cases (leb buffer_width w.column_position)) [
  | inl f ↦
      let full : leb buffer_width t.column ≡ true = rw (← h.columns) f in
      rw (write_visible-full byte w f, full)
        (put_byte-Refines byte (fed w) (feed t) (omega arith) (fed-Shows w t h))
  | inr f ↦
      let free : leb buffer_width t.column ≡ false = rw (← h.columns) f in
      rw (write_visible-free byte w f, free) (put_byte-Refines byte w t (ground arith) h)
]

write_byte-Refines :
    (byte : ℕ) (w : Writer) (t : Sheet) → Shows w t → Refines (write_byte byte) w (type_byte byte t)
unfolding write_byte type_byte
write_byte-Refines byte w t h = elim (Bool-cases (byte == newline)) [
  | inl e ↦ rw e (new_line-Refines w t h)
  | inr e ↦ rw e (unfold write_visible in write_visible-Refines byte w t h)
]

-- Whatever text is written, the writer does not panic, and the screen shows the last 25 rows of the
-- sheet that the text is typed on, if it did so before; the column stays within the 80 of a row or
-- right behind them.
pub write_string-Refines :
    (s : Bytes) (w : Writer) (t : Sheet)
    → Shows w t
    → (w2 : Writer) × (write_string s w ≡ (ok tt, w2)) × Shows w2 (type_string s t)
unfolding write_string type_string
write_string-Refines [] w t h = (w, unfold ◌>>=◌ in refl, h)
write_string-Refines (c ∷ s) w t h =
    let one = write_byte-Refines (shown c) w t h in
    let rest = write_string-Refines s one.0 (type_byte (shown c) t) one.2 in
    (rest.0, bind-ok (write_byte (shown c)) (λ _. write_string s) w one.1 ∙ rest.1, rest.2)
