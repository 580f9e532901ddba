-- ===== src/Shell/Line.antt =====
-- The loop of the shell (kernel/src/shell/mod.rs, `run`): the line that is typed, and its history.
pub mod Keeps
pub mod Erase
pub mod Editing
pub mod Keys
pub mod Shown
pub mod Typing
use riptide.Prelude.{
  ℕ, zero, suc, ◌+◌, ◌-◌, ◌*◌, ◌/◌, ◌%◌, Bool, true, false, not, Option, none, some, List, [], ◌∷◌,
  ◌++◌, Bytes, codes, ◌==◌, length, ltb, leb, if◌then◌else◌,
}
use riptide.Fs.State.{
  Act, Outcome, ok, pure, panics, gets, modify, ◌>>=◌, ◌>>◌, assert, match_option,
}
use riptide.Vga.{
  buffer_width, buffer_height, newline, set_column_position, set_cursor_position, enable_cursor,
  disable_cursor,
}
use riptide.Shell.Console.{Console, on_writer, to_ports, print, println}
use riptide.Shell.Console.Format.{Texts}
use riptide.Shell.Commands.{parse_and_execute}

-- `get_prompt`
abbrev pub prompt : Bytes
prompt = codes "root@riptide> "

-- `INPUT_BUFFER_LEN`
abbrev pub input_buffer_len : ℕ
input_buffer_len = buffer_width - length prompt - 1

-- The UTF-8 bytes of a `char`.
unfoldable pub utf8 : ℕ → Bytes
utf8 c =
    if ltb c 0x80
    then c ∷ []
    else if ltb c 0x800
    then (0xC0 + c / 64) ∷ (0x80 + c % 64) ∷ []
    else if ltb c 0x10000
    then (0xE0 + c / 4096) ∷ (0x80 + c / 64 % 64) ∷ (0x80 + c % 64) ∷ []
    else (0xF0 + c / 262144) ∷ (0x80 + c / 4096 % 64) ∷ (0x80 + c / 64 % 64) ∷ (0x80 + c % 64) ∷ []

-- `heapless::String<INPUT_BUFFER_LEN>`: its characters, in order.
abbrev pub InputBuffer : Type 0
InputBuffer = List ℕ

-- Its bytes: `&input_buffer`.
unfoldable pub text_of : InputBuffer → Bytes
unfolding utf8
text_of [] = []
text_of (c ∷ cs) = utf8 c ++ text_of cs

-- `push`: it fails if the bytes of the character do not fit
unfoldable pub push : ℕ → InputBuffer → Option InputBuffer
unfolding text_of utf8
push c cs =
    if leb (length (text_of cs) + length (utf8 c)) input_buffer_len
    then some (cs ++ c ∷ [])
    else none

-- `pop`, without the character that it returns; also `pop_back` of the history
unfoldable pub pop {ℓ} : {A : Type ℓ} → List A → List A
pop [] = []
pop (c ∷ []) = []
pop (c ∷ d ∷ cs) = c ∷ pop (d ∷ cs)

-- The locals of `run` but for the keyboard: `history` has its front first.
pub record Shell : Type 0 where
  pub console : Console
  pub input_buffer : InputBuffer
  pub cursor_position : ℕ
  pub history : List InputBuffer

-- The capacity of the history.
abbrev pub history_len : ℕ
history_len = 16

unfoldable pub on_console : {A : Type 0} → Act Console A → Act Shell A
on_console m s = let r = m s.console in (r.0, record s { console = r.1 })

-- A sum of two `u8`, which must not overflow.
unfoldable pub add_u8 : {S : Type 0} → ℕ → ℕ → Act S ℕ
add_u8 a b = if ltb (a + b) 256 then pure (a + b) else panics

unfoldable pub print_prompt : Act Console (Unit {0})
unfolding print to_ports
print_prompt = do print prompt; to_ports (set_cursor_position (length prompt) (buffer_height - 1))

abbrev pub clear_input : Shell → Shell
clear_input s = record s { input_buffer = []; cursor_position = 0 }

-- `history.pop_back()` if it is full, then `push_front(...).unwrap()`
unfoldable pub remember : Act Shell (Unit {0})
unfolding pop
remember = do
  full ← gets (λ s. length s.history == history_len)
  modify λ s. record s { history = if full then pop s.history else s.history }
  room ← gets (λ s. ltb (length s.history) history_len)
  assert room
  modify λ s. record s { history = s.input_buffer ∷ s.history }

-- What follows a command; `true` ends the shell.
unfoldable pub after_command : Bool → Act Shell Bool
unfolding on_console print_prompt remember to_ports
after_command true = do on_console (to_ports disable_cursor); pure true
after_command false = do on_console print_prompt; remember; modify clear_input; pure false

-- Enter
unfoldable pub enter : Texts → Act Shell Bool
unfolding on_console println after_command
enter T = do
  on_console (println [])
  input ← gets (λ s. s.input_buffer)
  done ← on_console (parse_and_execute T (text_of input))
  after_command done

-- The loop that prints `count` blanks.
unfoldable pub print_blanks : ℕ → Act Console (Unit {0})
unfolding print
print_blanks zero = pure tt
print_blanks (suc count) = do print (codes " "); print_blanks count

-- What backspace does to the screen, with the cursor at `cursor`.
unfoldable pub erase_from : ℕ → Act Console (Unit {0})
unfolding print_blanks on_writer to_ports add_u8
erase_from cursor = do
  col ← add_u8 (length prompt) cursor
  on_writer (set_column_position col)
  print_blanks (buffer_width - (length prompt + cursor))
  on_writer (set_column_position col)
  to_ports (set_cursor_position col (buffer_height - 1))

-- Backspace; the argument is whether ctrl is pressed.
unfoldable pub backspace : Bool → Act Shell (Unit {0})
unfolding erase_from on_console pop
backspace ctrl = do
  modify λ s.
      if ctrl
      then clear_input s
      else record s { input_buffer = pop s.input_buffer; cursor_position = s.cursor_position - 1 }
  cursor ← gets (λ s. s.cursor_position)
  on_console (erase_from cursor)

-- A character that fits.
unfoldable pub append : ℕ → InputBuffer → Act Shell (Unit {0})
unfolding print to_ports on_console add_u8
append character input = do
  modify λ s. record s { input_buffer = input }
  old ← gets (λ s. s.cursor_position)
  cursor ← add_u8 old 1
  modify λ s. record s { cursor_position = cursor }
  on_console (print (utf8 character))
  col ← add_u8 (length prompt) cursor
  on_console (to_ports (set_cursor_position col (buffer_height - 1)))

-- Any other character
unfoldable pub insert : ℕ → Act Shell (Unit {0})
unfolding push append
insert character = do
  pushed ← gets (λ s. push character s.input_buffer)
  match_option pushed (pure tt) (append character)

-- `DecodedKey::Unicode(character)`; `true` ends the shell.
unfoldable pub handle_character : Texts → Bool → ℕ → Act Shell Bool
unfolding enter backspace insert
handle_character T ctrl character =
    if character == newline
    then enter T
    else if character == 8
    then (do backspace ctrl; pure false)
    else (do insert character; pure false)
