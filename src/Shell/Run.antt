-- ===== src/Shell/Run.antt =====
-- `run` (kernel/src/shell/mod.rs) on the scancodes that come in.
pub mod Lines
mod Tests
use riptide.Prelude.{ℕ, Bool, true, false, Option, none, some, List, [], ◌∷◌, if◌then◌else◌}
use riptide.Fs.State.{Vfs, Act, ok, pure, ◌>>=◌, ◌>>◌}
use riptide.Vga.{Writer, enable_cursor}
use riptide.Shell.Console.{Console, to_ports}
use riptide.Shell.Console.Format.{Texts}
use riptide.Shell.Line.{Shell, on_console, print_prompt, handle_character}

-- `pc_keyboard::DecodedKey`
pub data DecodedKey : Type 0 where
  unicode : ℕ → DecodedKey
  raw_key : DecodedKey

-- What the shell uses of `pc_keyboard::Keyboard`. `add_byte` gives `none` on an error too, since the
-- shell does the same then.
pub record Keyboard : Type 1 where
  pub State : Type 0
  pub Event : Type 0
  pub new : State
  pub add_byte : ℕ → State → Option Event × State
  pub process_keyevent : Event → State → Option DecodedKey × State
  pub is_ctrl : State → Bool

module _ (T : Texts) (K : Keyboard) where
  -- The key behind a scancode, if it ends one, and the keyboard then.
  unfoldable pub decode : ℕ → K.State → Option DecodedKey × K.State
  decode scancode k =
      let (event, k2) = K.add_byte scancode k in
      elim event [ none ↦ (none, k2) | some e ↦ K.process_keyevent e k2 ]

  unfoldable pub handle_key : K.State → Option DecodedKey → Act Shell Bool
  handle_key k none = pure false
  handle_key k (some raw_key) = pure false
  handle_key k (some (unicode character)) = handle_character T (K.is_ctrl k) character

  -- The loop; it has ended where the result is `true`, and waits for a scancode where it is `false`.
  unfoldable pub handle_scancodes : K.State → List ℕ → Act Shell Bool
  unfolding decode handle_key
  handle_scancodes k [] = pure false
  handle_scancodes k (scancode ∷ rest) = do
    let decoded = decode scancode k
    let later = handle_scancodes decoded.1 rest
    done ← handle_key decoded.1 decoded.0
    if done then pure true else later

  -- The locals at the start.
  abbrev pub new_shell : Console → Shell
  new_shell console = record {
    console = console;
    input_buffer = [];
    cursor_position = 0;
    history = [];
  }

  -- `run`; `s` and `e` are what the data port gives to `enable_cursor`.
  unfoldable pub run : ℕ → ℕ → List ℕ → Act Shell Bool
  unfolding handle_scancodes on_console to_ports print_prompt
  run s e scancodes = do
    on_console (to_ports (enable_cursor s e 13 15))
    on_console print_prompt
    handle_scancodes K.new scancodes
