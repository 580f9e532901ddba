-- ===== src/Vga/Colored.antt =====
-- `with_color` (kernel/src/vga.rs) on the sheet, and steps in a row.
use riptide.Prelude.{ℕ, ◌≡◌, refl, ◌∙◌, [], ◌∷◌, ◌++◌, Bytes}
use riptide.Fs.State.{Act, ◌>>=◌, ◌>>◌}
use riptide.Fs.State.Keeps.{bind-ok}
use riptide.Vga.{Writer, with_color, set_color_code, write_string}
use riptide.Vga.Screen.{Sheet, Shows, Refines, type_string, write_string-Refines}

pub Refines-then :
    (m n : Act Writer (Unit {0})) (w : Writer) (t1 t2 : Sheet)
    → Refines m w t1
    → ((w1 : Writer) → Shows w1 t1 → Refines n w1 t2)
    → Refines (m >> n) w t2
Refines-then m n w t1 t2 r f =
    let rest = f r.0 r.2 in (rest.0, bind-ok m (λ _. n) w r.1 ∙ rest.1, rest.2)

-- What is typed in a color; the color of the sheet is what it was.
abbrev pub colored : ℕ → (Sheet → Sheet) → Sheet → Sheet
colored color f t = record (f (record t { color = color })) { color = t.color }

pub Shows-color :
    (color : ℕ) (w : Writer) (t : Sheet)
    → Shows w t
    → Shows (record w { color_code = color }) (record t { color = color })
Shows-color color w t h = record {
  cells = h.cells;
  columns = h.columns;
  colors = refl;
  within = h.within;
}

pub with_color-Refines :
    (color : ℕ) (m : Act Writer (Unit {0})) (f : Sheet → Sheet) (w : Writer) (t : Sheet)
    → ((w1 : Writer) (t1 : Sheet) → Shows w1 t1 → Refines m w1 (f t1))
    → Shows w t
    → Refines (with_color color m) w (colored color f t)
unfolding with_color set_color_code ◌>>=◌
with_color-Refines color m f w t r h =
    let inner =
      r (record w { color_code = color }) (record t { color = color }) (Shows-color color w t h) in
    (
      record inner.0 { color_code = w.color_code },
      rw inner.1 refl,
      record {
        cells = inner.2.cells;
        columns = inner.2.columns;
        colors = h.colors;
        within = inner.2.within;
      },
    )

pub type_string-append :
    (a b : Bytes) (t : Sheet) → type_string (a ++ b) t ≡ type_string b (type_string a t)
unfolding type_string
type_string-append [] b t = refl
type_string-append (c ∷ a) b t = type_string-append a b _

-- A text in a color; the color of the sheet is what it was.
abbrev pub type_colored : ℕ × Bytes → Sheet → Sheet
type_colored (color, text) t = colored color (type_string text) t

-- A text in a color.
pub colored-Refines :
    (color : ℕ) (text : Bytes) (w : Writer) (t : Sheet)
    → Shows w t
    → Refines (with_color color (write_string text)) w (type_colored (color, text) t)
colored-Refines color text w t =
    with_color-Refines color (write_string text) (type_string text) w t (write_string-Refines text)
