-- ===== src/Shell/Console/Printing.antt =====
-- Printing on the console: several texts in a row are one text.
use mathlib.Core.Path.{fun_ext}
use riptide.Prelude.{◌≤◌, ◌≡◌, refl, sym, ap, ◌∙◌, [], ◌++◌, Bytes}
use riptide.Fs.State.{Act, Outcome, ok, err, panic, ◌>>=◌, ◌>>◌}
use riptide.Vga.{Writer, write_string, buffer_width}
use riptide.Vga.Typing.{write_string-append, write_string-returns}
use riptide.Shell.Console.{Console, on_writer, print}

-- What the writer does in a row, the console does in a row.
on_writer-bind :
    {A B : Type 0} (m : Act Writer A) (f : A → Act Writer B) (s : Console)
    → on_writer (m >>= f) s ≡ (on_writer m >>= λ a. on_writer (f a)) s
unfolding on_writer ◌>>=◌
on_writer-bind {A} {B} m f s = go (m s.writer)
  where
    go :
        (r : Outcome A × Writer)
        → on_writer ((λ (w : Writer). r) >>= f) s
          ≡ (on_writer (λ (w : Writer). r) >>= λ a. on_writer (f a)) s
    go (ok a, t) = refl
    go (err e, t) = refl
    go (panic, t) = refl

pub print-append : (a b : Bytes) (s : Console) → (print a >> print b) s ≡ print (a ++ b) s
unfolding print
print-append a b s = sym (
    ap (λ (m : Act Writer (Unit {0})). on_writer m s) (fun_ext (write_string-append a b))
    ∙ on_writer-bind (write_string a) (λ _. write_string b) s)

-- Printing always returns, and only the writer changes.
pub print-returns :
    (text : Bytes) (s : Console)
    → s.writer.column_position ≤ buffer_width
    → (w : Writer) × (print text s ≡ (ok tt, record s { writer = w }))
      × (w.column_position ≤ buffer_width)
unfolding print on_writer
print-returns text s h = let r = write_string-returns text s.writer h in (r.0, rw r.1 refl, r.2)

pub print-nil : (s : Console) → print [] s ≡ (ok tt, s)
unfolding print on_writer write_string ◌>>=◌
print-nil s = refl
