-- ===== src/Vga/Tests.antt =====
-- A text on a blank screen.
use riptide.Prelude.{◌≡◌, refl, codes, arith}
use riptide.Fs.State.{ok}
use riptide.Vga.{Writer, write_string, blank_cell}
use riptide.Vga.Screen.{Sheet, Shows, type_string, write_string-Refines}

abbrev blank_writer : Writer
blank_writer = record { column_position = 0; color_code = 15; buffer = λ r c. blank_cell 15 }

abbrev blank_sheet : Sheet
blank_sheet = record { rows = λ k c. blank_cell 15; column = 0; color = 15 }

blank-Shows : Shows blank_writer blank_sheet
blank-Shows = record {
  cells = λ k c i j. refl;
  columns = refl;
  colors = refl;
  within = omega arith;
}

write_string-Refines_example :
    (w2 : Writer) × (write_string (codes "hi") blank_writer ≡ (ok tt, w2))
    × Shows w2 (type_string (codes "hi") blank_sheet)
write_string-Refines_example =
    write_string-Refines (codes "hi") blank_writer blank_sheet blank-Shows
