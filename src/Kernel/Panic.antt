-- ===== src/Kernel/Panic.antt =====
-- The handler of panics (kernel/src/panic.rs).
pub mod Report
use riptide.Prelude.{
  ℕ, zero, suc, Bool, true, false, Option, none, some, List, [], ◌∷◌, ◌++◌, Bytes, codes,
}
use riptide.Fs.State.{Act, pure, modify, ◌>>=◌, ◌>>◌}
use riptide.Vga.{
  Writer, PortWrite, write_string, newline, with_color, set_color_code, disable_cursor, on_black,
  color_code_of, Color, white, black, dark_gray, light_red, light_gray,
}

-- What the handler reads of `core::panic::PanicInfo`: the texts of its location and of its message.
pub record PanicInfo : Type 0 where
  pub location : Option Bytes
  pub message : Bytes

-- What the handler works on: the screen, what went to the ports of the cursor, oldest first, and
-- whether interrupts are on.
pub record Screen : Type 0 where
  pub writer : Writer
  pub ports : List PortWrite
  pub interrupts_enabled : Bool

unfoldable pub on_screen : Act Writer (Unit {0}) → Act Screen (Unit {0})
on_screen m s = let r = m s.writer in (r.0, record s { writer = r.1 })

-- The loop of `print!("=")`.
unfoldable pub equals_signs : ℕ → Act Writer (Unit {0})
equals_signs zero = pure tt
equals_signs (suc left) = do write_string (codes "="); equals_signs left

-- What is between the panic and the text before it.
unfoldable pub separator : Act Writer (Unit {0})
unfolding equals_signs
separator = do
  write_string (newline ∷ [])
  equals_signs 60
  write_string (newline ∷ [])
  write_string (newline ∷ [])

abbrev pub located : Option Bytes → Bytes
located (some loc) = codes "(at " ++ loc ++ codes ")"
located none = codes "(at <unspecified>)"

-- `panic`, up to the loop of `hlt` at its end
unfoldable pub panic_handler : PanicInfo → Act Screen (Unit {0})
unfolding on_screen separator
panic_handler info = do
  on_screen (set_color_code (color_code_of white black))
  on_screen (with_color (on_black dark_gray) separator)
  on_screen (with_color (on_black light_red) (write_string (codes "ERROR: ")))
  on_screen (write_string (codes "kernel panicked "))
  on_screen (with_color (on_black light_gray) (write_string (located info.location)))
  on_screen (write_string (codes ":" ++ newline ∷ []))
  on_screen (write_string (newline ∷ []))
  on_screen (with_color (on_black light_gray) (write_string (info.message ++ newline ∷ [])))
  modify λ s. record s { ports = s.ports ++ disable_cursor }
  modify λ s. record s { interrupts_enabled = false }
