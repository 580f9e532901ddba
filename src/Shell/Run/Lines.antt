-- ===== src/Shell/Run/Lines.antt =====
-- The line and the history over a whole run of the shell.
use mathlib.Core.Path.{subst}
use riptide.Prelude.{ℕ, ◌≡◌, refl, Bool, true, false, Option, none, some, List, [], ◌∷◌, arith}
use riptide.Fs.State.{ok, pure}
use riptide.Fs.State.Keeps.{Keeps, Holds, Keeps-pure, Keeps-if, Keeps-bind}
use riptide.Shell.Console.{Console}
use riptide.Shell.Console.Format.{Texts}
use riptide.Shell.Line.{Shell, text_of, on_console}
use riptide.Shell.Line.Keeps.Enter.{Keeps-handle_character}
use riptide.Shell.Line.Keeps.{WellFormed, Keeps-on_console}
use riptide.Shell.Run.{
  Keyboard, DecodedKey, unicode, raw_key, decode, handle_key, handle_scancodes, new_shell, run,
}

module _ (T : Texts) (K : Keyboard) where
  Keeps-handle_key :
      (k : K.State) (key : Option DecodedKey) → Keeps WellFormed (handle_key T K k key)
  unfolding handle_key
  Keeps-handle_key k none = Keeps-pure false
  Keeps-handle_key k (some raw_key) = Keeps-pure false
  Keeps-handle_key k (some (unicode c)) = Keeps-handle_character T (K.is_ctrl k) c

  Keeps-handle_scancodes :
      (k : K.State) (scancodes : List ℕ) → Keeps WellFormed (handle_scancodes T K k scancodes)
  unfolding handle_scancodes
  Keeps-handle_scancodes k [] = Keeps-pure false
  Keeps-handle_scancodes k (scancode ∷ rest) =
      let decoded = decode T K scancode k in
      Keeps-bind (handle_key T K decoded.1 decoded.0) _ (Keeps-handle_key decoded.1 decoded.0)
        (λ done.
          Keeps-if done (pure true) (handle_scancodes T K decoded.1 rest) (Keeps-pure true)
            (Keeps-handle_scancodes decoded.1 rest))

  Keeps-run : (s e : ℕ) (scancodes : List ℕ) → Keeps WellFormed (run T K s e scancodes)
  unfolding run
  Keeps-run s e scancodes = Keeps-bind (on_console _) _ (Keeps-on_console _) (λ _.
      Keeps-bind (on_console _) _ (Keeps-on_console _)
        (λ _. Keeps-handle_scancodes K.new scancodes))

  new_shell-WellFormed : (console : Console) → WellFormed (new_shell T K console)
  unfolding text_of
  new_shell-WellFormed console = record {
    cursor = refl;
    fits = omega arith;
    remembered = omega arith;
  }

  -- Whatever the keyboard decodes, whatever is typed and whatever the commands do to the console, when
  -- `run` waits for a scancode or has ended, the cursor is behind the last character of the line, the
  -- line's bytes fit its buffer, and the history has at most its 16 lines.
  pub run-WellFormed :
      (s e : ℕ) (scancodes : List ℕ) (console : Console) (done : Bool) (shell : Shell)
      → run T K s e scancodes (new_shell T K console) ≡ (ok done, shell)
      → WellFormed shell
  run-WellFormed s e scancodes console done shell h =
      subst (Holds WellFormed (λ _. WellFormed)) h
        ((Keeps-run s e scancodes).at (new_shell T K console) (new_shell-WellFormed console))
