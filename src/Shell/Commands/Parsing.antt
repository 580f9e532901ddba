-- ===== src/Shell/Commands/Parsing.antt =====
-- `parse_and_execute` (kernel/src/shell/mod.rs): what is run is the command of the lexer's tokens.
use riptide.Prelude.{
  ℕ, List, suc, ◌≡◌, refl, ◌∙◌, true, some, [], ◌∷◌, ◌++◌, Bytes, codes, length, arith,
}
use riptide.Fs.Path.{is_ascii}
use riptide.Fs.State.{ok, ◌>>=◌}
use riptide.Fs.State.Keeps.{bind-ok}
use riptide.Vga.{Writer, newline, on_black, light_gray}
use riptide.Vga.Screen.{Sheet, Shows}
use riptide.Vga.Colored.{type_colored, colored-Refines}
use riptide.Shell.Parser.{Parser, collect}
use riptide.Shell.Parser
use riptide.Shell.Parser.Modes.{lex, outside}
use riptide.Shell.Parser.Lexer.{collect-eq-lex}
use riptide.Shell.Console.{Console, on_writer, println_in}
use riptide.Shell.Console.Format.{Texts, debug_list}
use riptide.Shell.Commands.{tokens, execute_args, parse_and_execute}

println_in-Refines :
    (color : ℕ) (text : Bytes) (s : Console) (t : Sheet)
    → Shows s.writer t
    → (w : Writer) × (println_in color text s ≡ (ok tt, record s { writer = w }))
      × Shows w (type_colored (color, text ++ newline ∷ []) t)
unfolding println_in on_writer
println_in-Refines color text s t h =
    let r = colored-Refines color (text ++ newline ∷ []) s.writer t h in (r.0, rw r.1 refl, r.2)

tokens_lem :
    (input : Bytes) (s : Console)
    → is_ascii input ≡ true
    → tokens input s ≡ (ok (lex input outside), s)
unfolding tokens Parser.new ◌>>=◌
tokens_lem input s h =
    let p : Parser = record { input = input; position = 0 } in
    let made : Parser.new input ≡ some p = rw h refl in
    rw h (rw (collect-eq-lex input p (suc (length input)) made (omega arith)) refl)

-- The two gray lines behind what is on the sheet: the input, and the arguments.
abbrev pub gray_lines : Texts → Bytes → List Bytes → Sheet → Sheet
gray_lines T input args t =
    type_colored (on_black light_gray, codes "args: " ++ debug_list T args ++ newline ∷ [])
      (type_colored (on_black light_gray, codes "input: " ++ T.debug_str input ++ newline ∷ []) t)

-- On a line that is ASCII, `parse_and_execute` prints two lines in gray, the input and the arguments
-- that the lexer reads in it, behind what is on the screen, and then runs the command with these
-- arguments, from a console that differs in the screen only.
pub parse_and_execute-lex :
    (T : Texts) (input : Bytes) (s : Console) (t : Sheet)
    → Shows s.writer t
    → is_ascii input ≡ true
    → (w : Writer) × Shows w (gray_lines T input (lex input outside) t)
      × (parse_and_execute T input s ≡ execute_args T (lex input outside) (record s { writer = w }))
unfolding parse_and_execute
parse_and_execute-lex T input s t h ascii =
    let gray = on_black light_gray in
    let typed : Bytes = codes "input: " ++ T.debug_str input in
    let args = lex input outside in
    let read_as : Bytes = codes "args: " ++ debug_list T args in
    let one = println_in-Refines gray typed s t h in
    let s1 : Console = record s { writer = one.0 } in
    let two =
      println_in-Refines gray read_as s1 (type_colored (gray, typed ++ newline ∷ []) t) one.2 in
    (
      two.0,
      two.2,
      bind-ok (println_in gray typed) _ s one.1
          ∙ bind-ok (tokens input) _ s1 (tokens_lem input s1 ascii)
          ∙ bind-ok (println_in gray read_as) _ s1 two.1,
    )
