-- ===== src/Vga/Typing.antt =====
-- Single characters on the bottom row (kernel/src/vga.rs, `write_byte`), and texts in a row.
use mathlib.Core.Path.{fun_ext}
use riptide.Prelude.{
  ℕ, ◌-◌, ◌≤◌, ◌<◌, ◌≡◌, refl, sym, ap, ◌∙◌, true, false, [], ◌∷◌, ◌++◌, Bytes, leb, ◌==◌, arith,
}
use riptide.Fs.State.{Act, Outcome, ok, err, panic, ◌>>=◌, ◌>>◌}
use riptide.Vga.{
  Writer, buffer_height, buffer_width, newline, write_byte, write_string, shown, is_printable,
}
use riptide.Vga.Loops.{write_cell_in}
use riptide.Vga.Screen.{Sheet, Shows, typed, write_string-Refines}

-- A byte other than newline, at a column that is free.
pub write_byte-free :
    (byte : ℕ) (w : Writer)
    → (byte == newline) ≡ false
    → w.column_position < buffer_width
    → write_byte byte w ≡ (ok tt, typed byte w)
unfolding write_byte ◌>>=◌
write_byte-free byte w visible free =
    let not_full : leb buffer_width w.column_position ≡ false = ground arith in
    rw visible (
      rw not_full (
        rw
          (write_cell_in (buffer_height - 1) w.column_position
            (record { ascii_character = byte; color_code = w.color_code }) w (omega arith) free)
          refl))

-- The sheet that a writer shows.
abbrev sheet_of : Writer → Sheet
sheet_of w = record {
  rows = λ k c. w.buffer (buffer_height - 1 - k) c;
  column = w.column_position;
  color = w.color_code;
}

sheet_of-Shows : (w : Writer) → w.column_position ≤ buffer_width → Shows w (sheet_of w)
sheet_of-Shows w h = record { cells = λ k c i j. refl; columns = refl; colors = refl; within = h }

-- A text is always written.
pub write_string-returns :
    (text : Bytes) (w : Writer)
    → w.column_position ≤ buffer_width
    → (w2 : Writer) × (write_string text w ≡ (ok tt, w2)) × (w2.column_position ≤ buffer_width)
write_string-returns text w h =
    let r = write_string-Refines text w (sheet_of w) (sheet_of-Shows w h) in (r.0, r.1, r.2.within)

module _ {S A B C : Type 0} where
  pub bind_assoc :
      (m : Act S A) (f : A → Act S B) (g : B → Act S C) (s : S)
      → ((m >>= f) >>= g) s ≡ (m >>= λ a. f a >>= g) s
  unfolding ◌>>=◌
  bind_assoc m f g s = go (m s)
    where
      go :
          (r : Outcome A × S)
          → (((λ (s : S). r) >>= f) >>= g) s ≡ ((λ (s : S). r) >>= λ a. f a >>= g) s
      go (ok a, t) = refl
      go (err e, t) = refl
      go (panic, t) = refl

-- Two texts in a row are one.
pub write_string-append :
    (a b : Bytes) (w : Writer)
    → write_string (a ++ b) w ≡ (write_string a >>= λ _. write_string b) w
unfolding write_string
write_string-append [] b w = unfold ◌>>=◌ in refl
write_string-append (c ∷ a) b w =
    ap (λ (k : Act Writer (Unit {0})). (write_byte (shown c) >> k) w)
      (fun_ext (write_string-append a b))
    ∙ sym (bind_assoc (write_byte (shown c)) (λ _. write_string a) (λ _. write_string b) w)

-- One printable character, at a column that is free.
pub write_string-one :
    (c : ℕ) (w : Writer)
    → is_printable c ≡ true
    → w.column_position < buffer_width
    → write_string (c ∷ []) w ≡ (ok tt, typed c w)
unfolding write_string shown ◌>>=◌
write_string-one c w p free =
    let same : shown c ≡ c = unfold shown in ground (arith, p) in
    let visible : (c == newline) ≡ false = ground (arith, p) in
    rw same (rw (write_byte-free c w visible free) refl)
