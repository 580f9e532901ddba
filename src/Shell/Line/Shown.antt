-- ===== src/Shell/Line/Shown.antt =====
-- What is typed is what is seen (kernel/src/shell/mod.rs): the bottom row shows the prompt and the
-- line.
use riptide.Vga.Loops.{row_cleared}
use riptide.Vga.{Buffer, blank_cell, set_buffer}
use riptide.Prelude.{
  ℕ, zero, suc, ◌+◌, ◌-◌, ◌<◌, ◌≡◌, refl, ap, [], ◌∷◌, ◌++◌, Bytes, length, length-append,
  append_assoc, leb, ◌==◌, arith, if◌then◌else◌, Bool-cases, inl, inr,
}
use riptide.Vga.{buffer_width, buffer_height}
use riptide.Shell.Line.{Shell, InputBuffer, prompt, pop}

-- The character of a row that shows a text.
unfoldable pub cell_at : ℕ → Bytes → ℕ
cell_at i [] = b' '
cell_at zero (x ∷ xs) = x
cell_at (suc i) (x ∷ xs) = cell_at i xs

pub cell_at-snoc :
    (i c : ℕ) (xs : Bytes) → cell_at i (xs ++ c ∷ []) ≡ (if i == length xs then c else cell_at i xs)
unfolding cell_at
cell_at-snoc zero c [] = refl
cell_at-snoc (suc i) c [] = ground arith
cell_at-snoc zero c (x ∷ xs) = ground arith
cell_at-snoc (suc i) c (x ∷ xs) = ground (arith, cell_at-snoc i c xs)

pub cell_at-prefix :
    (i : ℕ) (ys zs : Bytes)
    → cell_at i ys ≡ (if leb (length ys) i then b' ' else cell_at i (ys ++ zs))
unfolding cell_at
cell_at-prefix i [] zs = ground arith
cell_at-prefix zero (y ∷ ys) zs = ground arith
cell_at-prefix (suc i) (y ∷ ys) zs = ground (arith, cell_at-prefix i ys zs)

pub pop-prefix : (cs : InputBuffer) → (zs : InputBuffer) × (cs ≡ pop cs ++ zs)
unfolding pop
pop-prefix [] = ([], refl)
pop-prefix (c ∷ []) = (c ∷ [], refl)
pop-prefix (c ∷ d ∷ cs) =
    let r = pop-prefix (d ∷ cs) in (r.0, ap (λ (xs : InputBuffer). c ∷ xs) r.1)

-- The bottom row shows the prompt and the line, and the writer stands behind them.
pub record LineShown (s : Shell) : Type 0 where
  pub cells :
      (i : ℕ)
      → i < buffer_width
      → (s.console.writer.buffer (buffer_height - 1) i).ascii_character
        ≡ cell_at i (prompt ++ s.input_buffer)
  pub column : s.console.writer.column_position ≡ length prompt + length s.input_buffer

pub erased_row :
    (i col color : ℕ) (b : Buffer) (p ys zs : Bytes)
    → i < buffer_width
    → col ≡ length p + length ys
    → (b (buffer_height - 1) i).ascii_character ≡ cell_at i (p ++ (ys ++ zs))
    → (row_cleared
        (blank_cell color)
        (buffer_height - 1)
        col
        b
        (buffer_height - 1)
        i).ascii_character
      ≡ cell_at i (p ++ ys)
erased_row i col color b p ys zs inside e h = elim (Bool-cases (leb col i)) [
  | inl f ↦ ground (arith, f, e, inside, cell_at-prefix i (p ++ ys) zs, length-append p ys)
  | inr f ↦
      ground
        (arith, f, e, h, cell_at-prefix i (p ++ ys) zs, length-append p ys, append_assoc p ys zs)
]

pub typed_row :
    (i col c color : ℕ) (b : Buffer) (p xs : Bytes)
    → col ≡ length p + length xs
    → (b (buffer_height - 1) i).ascii_character ≡ cell_at i (p ++ xs)
    → (set_buffer
        (buffer_height - 1)
        col
        (record { ascii_character = c; color_code = color })
        b
        (buffer_height - 1)
        i).ascii_character
      ≡ cell_at i (p ++ (xs ++ c ∷ []))
typed_row i col c color b p xs e h = elim (Bool-cases (i == col)) [
  | inl f ↦
      ground
        (arith, f, e, cell_at-snoc i c (p ++ xs), length-append p xs, append_assoc p xs (c ∷ []))
  | inr f ↦
      ground
        (arith, f, e, h, cell_at-snoc i c (p ++ xs), length-append p xs, append_assoc p xs (c ∷ []))
]
